-- ===== src/Output/Alloc/Floors/Validated.antt =====
-- `Allocate` on a set of columns that `validateCols` accepts.
use workspace_cli.Output.Alloc.{
  Col, Slot, chrome_for, cols_of, floor_of, min_budget, total_of, Cell, clamp_budget, drop_step,
  slots_from,
}
use workspace_cli.Output.Alloc.Drop.{NoneAbove}
use workspace_cli.Output.Alloc.Drop.Loop.{
  Ordered, All-drop_step, IsFresh, cols-drop_step, drop_step-Ordered, drop_step_ends,
}
use workspace_cli.Output.Alloc.Floors.{IsSound, natural-IsSound, shrink_by-IsSound}
use workspace_cli.Output.Alloc.Floors.Sums.{AreNatural, cols-shrink_by, count_kept-shrink_by}
use workspace_cli.Output.Alloc.Floors.Tight.{
  IsSettled, relaxed-IsSettled, shrunk_cases, tight-IsSettled, within-IsSettled,
}
use workspace_cli.Output.Alloc.Relax.{grid_total}
use workspace_cli.Output.Alloc.Relax.Total.{widths}
use workspace_cli.Output.Alloc.Result.{
  fit_step, relax_step, allocate, report, settle, titles_where, width_of, without_titles,
}
use workspace_cli.Output.Alloc.Shrink.{slack_of}
use workspace_cli.Output.Alloc.Shrink.Exact.{shrink_by, slack_at, shrink_to_fit-IsShrunk}
use workspace_cli.Output.Alloc.Validate.{IsRenderable, validate_cols, validate_cols-IsRenderable}
use workspace_cli.Output.Text.{GlyphMode}
use workspace_cli.Prelude.{
  All, List, ap, arith, inl, inr, refl, ℕ, ◌-◌, ◌<◌, ◌∙◌, ◌≡◌, ◌≤◌, ◌⊎◌, if_intro, ltb, ltb→le,
  ltb→lt, min, sum_by, ◌+◌, All-map, Option, [], false, map, none, some, suc, ◌∷◌,
}

-- Steps 3 and 5 behind step 2.
module _ (budget : ℕ) (mode : GlyphMode) (p : ℕ) (kept : List Slot) (wide : min_budget ≤ budget)
    (r : IsRenderable (cols_of kept)) (n : AreNatural kept) (o : Ordered p kept)
    (ended : (total_of floor_of kept ≤ budget) ⊎ NoneAbove 1 kept) where
  forced_only :
      (total_of floor_of kept ≤ budget) ⊎ NoneAbove 1 kept
      → budget < total_of floor_of kept
      → NoneAbove 1 kept
  forced_only (inl h) k = absurd (omega arith)
  forced_only (inr h) k = h

  shrunk-IsSettled :
      (f : ℕ → ℕ)
      → budget < grid_total kept
      → ((i : ℕ) → f i ≤ slack_at kept i)
      → widths (shrink_by f kept) + min (grid_total kept - budget) (sum_by slack_of kept)
        ≡ widths kept
      → IsSettled (cols_of kept) (relax_step budget mode (shrink_by f kept))
  shrunk-IsSettled f over within exact =
      let sound = shrink_by-IsSound f kept within (natural-IsSound p kept o n) in
      elim (shrunk_cases budget kept f n over exact) [
        | inl h ↦
            rw (cols-shrink_by f kept) at (within-IsSettled budget mode (shrink_by f kept) h sound)
        | inr (all_given, tight) ↦
            relaxed-IsSettled budget mode (shrink_by f kept)
              (omega (arith, all_given, tight, ap chrome_for (count_kept-shrink_by f kept)))
              (tight-IsSettled mode p o (record {
                wide = wide;
                renderable = r;
                natural = n;
                forced = forced_only ended tight;
                within = within;
                all_given = all_given;
              }))
      ]

  fitted-IsSettled : IsSettled (cols_of kept) (relax_step budget mode (fit_step budget kept))
  unfolding fit_step
  fitted-IsSettled =
      if_intro (λ slots. IsSettled (cols_of kept) (relax_step budget mode slots))
        (ltb budget (grid_total kept)) _ _
        (λ e.
          let sh = shrink_to_fit-IsShrunk (grid_total kept - budget) kept in
          rw (sh.shrunk)
            (shrunk-IsSettled sh.given (ltb→lt _ _ e) sh.within (rw (sh.shrunk) at sh.exact)))
        (λ e. within-IsSettled budget mode kept (ltb→le _ _ e) (natural-IsSound p kept o n))

slots_from-IsFresh :
    (mode : GlyphMode) (rows : List (List Cell)) (i : ℕ) (cols : List Col)
    → IsFresh (slots_from mode rows i cols)
unfolding slots_from
slots_from-IsFresh mode rows i [] = tt
slots_from-IsFresh mode rows i (c ∷ cols) =
    ((refl, refl, refl), slots_from-IsFresh mode rows (suc i) cols)

cols-slots_from :
    (mode : GlyphMode) (rows : List (List Cell)) (i : ℕ) (cols : List Col)
    → cols_of (slots_from mode rows i cols) ≡ cols
unfolding slots_from
cols-slots_from mode rows i [] = refl
cols-slots_from mode rows i (c ∷ cols) = ap (λ cs. c ∷ cs) (cols-slots_from mode rows (suc i) cols)

settle-IsSettled :
    (budget : ℕ) (mode : GlyphMode) (start : List Slot)
    → min_budget ≤ budget
    → IsFresh start
    → IsRenderable (cols_of start)
    → IsSettled (cols_of start) (settle budget mode start)
unfolding settle
settle-IsSettled budget mode start wide f r =
    let kept = drop_step budget start in
    let same = cols-drop_step budget start in
    let n =
      All-drop_step (λ s. (s.allotted ≡ s.natural) × (s.relaxed ≡ false)) (λ s h. h) budget start
        (All-map _ _ start (λ s h. (h.1, h.2)) f) in
    let o = drop_step-Ordered budget start f in
    rw same at
      (fitted-IsSettled budget mode o.0 kept wide (rw same r) n o.1 (drop_step_ends budget start f))

-- A column with its natural width and what it is given: it is dropped only if its priority number
-- is above 1, and has its floor, or its natural width if that is smaller.
abbrev pub Keeps : List Col → List ℕ → List (Option ℕ) → Type 0
Keeps [] [] [] = Unit
Keeps (c ∷ cols) (n ∷ naturals) (none ∷ ws) = (1 < c.prio) × Keeps cols naturals ws
Keeps (c ∷ cols) (n ∷ naturals) (some w ∷ ws) = (min c.min_width n ≤ w) × Keeps cols naturals ws
Keeps _ _ _ = ⊥

sound-Keeps :
    (slots : List Slot)
    → All IsSound slots
    → Keeps (cols_of slots) (map (λ s. s.natural) slots) (map (λ s. width_of s) slots)
sound-Keeps [] h = tt
sound-Keeps (s ∷ slots) h = ground (arith, h.0.droppable, h.0.floored, sound-Keeps slots h.1)

none_relaxed : (slots : List Slot) → All IsSound slots → titles_where (λ s. s.relaxed) slots ≡ []
unfolding titles_where
none_relaxed [] h = refl
none_relaxed (s ∷ slots) h = rw (h.0.unrelaxed) (none_relaxed slots h.1)

clamp_budget-wide : (budget : ℕ) → min_budget ≤ clamp_budget budget
clamp_budget-wide budget = ground arith

-- With columns that `validateCols` accepts, whatever the rows, the budget and the glyph mode, no
-- column is narrowed below its floor (or its natural width, if that is smaller), none is reported
-- as narrowed, and none of priority 0 or 1 is dropped.
pub validated-Keeps :
    (cols : List Col) (rows : List (List Cell)) (budget : ℕ) (mode : GlyphMode)
    → validate_cols cols ≡ none
    → Keeps cols (allocate cols rows budget mode).natural (allocate cols rows budget mode).widths
      × ((allocate cols rows budget mode).relaxed ≡ [])
unfolding allocate report
validated-Keeps cols rows budget mode valid =
    let start = slots_from mode rows 0 cols in
    let same = cols-slots_from mode rows 0 cols in
    let r =
      settle-IsSettled (clamp_budget budget) mode start (clamp_budget-wide budget)
        (slots_from-IsFresh mode rows 0 cols) (rw same (validate_cols-IsRenderable cols valid)) in
    (
      rw (r.placed ∙ same) at (sound-Keeps _ r.sound),
      rw (none_relaxed _ r.sound) (unfold without_titles in refl),
    )
