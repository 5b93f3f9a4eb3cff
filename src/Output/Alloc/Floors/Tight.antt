-- ===== src/Output/Alloc/Floors/Tight.antt =====
-- Steps 3 and 5 of internal/output/alloc.go's Allocate, within the budget and where every column
-- has shrunk to its floor.
use workspace_cli.Output.Alloc.{
  Col, Slot, chrome_for, cols_of, count_kept, floor_of, min_budget, sum_kept, total_of,
}
use workspace_cli.Output.Alloc.Drop.{NoneAbove}
use workspace_cli.Output.Alloc.Drop.Loop.{Ordered}
use workspace_cli.Output.Alloc.Floors.{
  IsSound, cols-squeeze_atomics, natural-IsSound, relax-done, shrink_by-IsSound,
  squeeze_atomics-IsSound,
}
use workspace_cli.Output.Alloc.Floors.Sums.{
  AreNatural, allotted_of, chrome_for_mono, cols-shrink_by, count_kept-shrink_by, floors-le,
  floors_and_slack, forced_covers, min_of, mins-shrink_by, rigid, rigid-shrink_by, split-mins,
  split-widths, squeeze_atomics_ends, supple-squeeze_atomics,
}
use workspace_cli.Output.Alloc.Relax.{Grid, grid_total, relax, squeeze_atomics}
use workspace_cli.Output.Alloc.Relax.Total.{squeeze_atomics-balance, widths}
use workspace_cli.Output.Alloc.Result.{relax_step}
use workspace_cli.Output.Alloc.Shrink.{slack_of}
use workspace_cli.Output.Alloc.Shrink.Exact.{shrink_by, slack_at}
use workspace_cli.Output.Alloc.Validate.{IsRenderable, forced_count}
use workspace_cli.Output.Text.{GlyphMode}
use workspace_cli.Prelude.{
  All, Bool-cases, List, ap, arith, inl, inr, leb, leb→le, leb→lt, le→ltb, lt→ltb, min, refl,
  sum_by, ℕ, ◌+◌, ◌-◌, ◌<◌, ◌∙◌, ◌≡◌, ◌≤◌, ◌⊎◌,
}

-- The columns that step 2 leaves when it may drop no more, shrunk to their floors.
pub record IsTight (budget : ℕ) (kept : List Slot) (f : ℕ → ℕ) : Type 0 where
  pub wide : min_budget ≤ budget
  pub renderable : IsRenderable (cols_of kept)
  pub natural : AreNatural kept
  pub forced : NoneAbove 1 kept
  pub within : (i : ℕ) → f i ≤ slack_at kept i
  pub all_given : widths (shrink_by f kept) ≡ sum_kept floor_of kept

module _ {budget : ℕ} {kept : List Slot} {f : ℕ → ℕ} (t : IsTight budget kept f) where
  abbrev squeezed : Grid
  squeezed = squeeze_atomics budget (shrink_by f kept) (grid_total (shrink_by f kept))

  -- With the atomic columns at their floors all columns are, and those fit.
  floors_fit :
      sum_kept (rigid allotted_of) squeezed.slots ≤ sum_kept (rigid min_of) (shrink_by f kept)
      → squeezed.total ≤ budget
  floors_fit h =
      let slots = shrink_by f kept in
      let step = squeeze_atomics-balance budget slots (grid_total slots) in
      let covers = forced_covers kept t.forced in
      omega (
        arith,
        h,
        t.renderable.fits,
        t.wide,
        t.all_given,
        covers.0,
        chrome_for_mono (count_kept kept) (forced_count (cols_of kept)) covers.1,
        ap chrome_for (count_kept-shrink_by f kept),
        step.0,
        split-widths squeezed.slots,
        split-widths slots,
        split-mins kept,
        supple-squeeze_atomics budget slots (grid_total slots),
        rigid-shrink_by f kept t.within,
        mins-shrink_by (rigid min_of) f kept (λ s k. refl),
        floors-le kept t.natural,
      )

  -- So part (a) of step 5 is enough.
  squeezed-le-budget : squeezed.total ≤ budget
  squeezed-le-budget =
      let mins : All (λ c. 1 ≤ c.min_width) (cols_of (shrink_by f kept)) =
        rw (cols-shrink_by f kept) t.renderable.mins in
      elim (squeeze_atomics_ends budget (shrink_by f kept) (grid_total (shrink_by f kept)) mins) [
        | inl h ↦ h
        | inr h ↦ floors_fit h
      ]

-- The result of all steps: sound columns, in their places.
pub record IsSettled (cols : List Col) (g : Grid) : Type 0 where
  pub sound : All IsSound g.slots
  pub placed : cols_of g.slots ≡ cols

pub tight-IsSettled :
    {budget : ℕ} {kept : List Slot} {f : ℕ → ℕ} (mode : GlyphMode) (p : ℕ)
    → Ordered p kept
    → IsTight budget kept f
    → IsSettled (cols_of kept) (
        relax budget mode
          (record { slots = shrink_by f kept; total = grid_total (shrink_by f kept) }))
tight-IsSettled {budget} {kept} {f} mode p o t =
    let slots = shrink_by f kept in
    rw
      (relax-done budget mode (record { slots = slots; total = grid_total slots })
        (squeezed-le-budget t))
      (record {
        sound =
            squeeze_atomics-IsSound budget slots (grid_total slots)
              (shrink_by-IsSound f kept t.within (natural-IsSound p kept o t.natural));
        placed = cols-squeeze_atomics budget slots (grid_total slots) ∙ cols-shrink_by f kept;
      })

-- Shrinking takes the whole deficit, or comes down to the floors.
pub shrunk_cases :
    (budget : ℕ) (kept : List Slot) (f : ℕ → ℕ)
    → AreNatural kept
    → budget < grid_total kept
    → widths (shrink_by f kept) + min (grid_total kept - budget) (sum_by slack_of kept)
      ≡ widths kept
    → (grid_total (shrink_by f kept) ≤ budget)
      ⊎ ((widths (shrink_by f kept) ≡ sum_kept floor_of kept) × (budget < total_of floor_of kept))
shrunk_cases budget kept f n over exact =
    let same = ap chrome_for (count_kept-shrink_by f kept) in
    let slack = floors_and_slack kept n in
    elim (Bool-cases (leb (grid_total kept - budget) (sum_by slack_of kept))) [
      | inl h ↦ inl (omega (arith, same, exact, over, leb→le _ _ h))
      | inr h ↦ inr (
        omega (arith, slack, exact, over, leb→lt _ _ h),
        omega (arith, slack, exact, over, leb→lt _ _ h),
      )
    ]

-- Step 5 is not reached within the budget.
pub within-IsSettled :
    (budget : ℕ) (mode : GlyphMode) (slots : List Slot)
    → grid_total slots ≤ budget
    → All IsSound slots
    → IsSettled (cols_of slots) (relax_step budget mode slots)
unfolding relax_step
within-IsSettled budget mode slots h s =
    rw (le→ltb budget (grid_total slots) h) (record { sound = s; placed = refl })

pub relaxed-IsSettled :
    (budget : ℕ) (mode : GlyphMode) (slots : List Slot) {cols : List Col}
    → budget < grid_total slots
    → IsSettled cols (relax budget mode (record { slots = slots; total = grid_total slots }))
    → IsSettled cols (relax_step budget mode slots)
unfolding relax_step
relaxed-IsSettled budget mode slots h s = rw (lt→ltb budget (grid_total slots) h) s
