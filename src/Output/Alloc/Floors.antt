-- ===== src/Output/Alloc/Floors.antt =====
-- The floors of the columns through the steps of `Allocate`.
pub mod Sums
pub mod Tight
pub mod Validated
use workspace_cli.Output.Alloc.{Slot, cols_of}
use workspace_cli.Output.Alloc.Drop.Loop.{Ordered}
use workspace_cli.Output.Alloc.Floors.Sums.{AreNatural}
use workspace_cli.Output.Alloc.Relax.{
  Grid, drop_right, relax, relax_floor, shrink_below_min, squeeze_atomics, squeeze_width,
}
use workspace_cli.Output.Alloc.Shrink.{slack_of}
use workspace_cli.Output.Alloc.Shrink.Exact.{narrow, shrink_by, slack_at}
use workspace_cli.Output.Text.{GlyphMode}
use workspace_cli.Prelude.{
  All, List, [], ap, arith, false, if_intro, leb, le→ltb, min, refl, suc, true, zero, ℕ, ◌&&◌, ◌-◌,
  ◌<◌, ◌∙◌, ◌∷◌, ◌≡◌, ◌≤◌,
}

-- What holds of a column through all steps: it is dropped only if it may be, and it keeps its
-- floor, or its natural width if that is smaller.
pub record IsSound (s : Slot) : Type 0 where
  pub droppable : s.kept ≡ false → 1 < s.col.prio
  pub floored : s.kept ≡ true → min s.col.min_width s.natural ≤ s.allotted
  pub unrelaxed : s.relaxed ≡ false

pub natural-IsSound :
    (p : ℕ) (slots : List Slot) → Ordered p slots → AreNatural slots → All IsSound slots
natural-IsSound p [] o n = tt
natural-IsSound p (s ∷ slots) o n = (
  record { droppable = λ e. (o.0.1 e).1; floored = λ e. omega (arith, n.0.0); unrelaxed = n.0.1 },
  natural-IsSound p slots o.1 n.1,
)

narrow-IsSound : (n : ℕ) (s : Slot) → n ≤ slack_of s → IsSound s → IsSound (narrow n s)
narrow-IsSound n s h i = record {
  droppable = i.droppable;
  floored = λ e. ground (arith, i.floored e);
  unrelaxed = i.unrelaxed;
}

pub shrink_by-IsSound :
    (f : ℕ → ℕ) (slots : List Slot)
    → ((i : ℕ) → f i ≤ slack_at slots i)
    → All IsSound slots
    → All IsSound (shrink_by f slots)
shrink_by-IsSound f [] h i = tt
shrink_by-IsSound f (s ∷ slots) h i = (
  narrow-IsSound (f 0) s (h 0) i.0,
  shrink_by-IsSound (λ k. f (suc k)) slots (λ k. h (suc k)) i.1,
)

squeeze_width-floor :
    (least budget w total : ℕ) → min least w ≤ (squeeze_width least budget w total).0
unfolding squeeze_width
squeeze_width-floor least budget zero total = omega arith
squeeze_width-floor least budget (suc w) total =
    ground (arith, squeeze_width-floor least budget w (total - 1))

squeezed-IsSound :
    (budget total : ℕ) (s : Slot)
    → IsSound s
    → IsSound (record s { allotted = (squeeze_width s.col.min_width budget s.allotted total).0 })
squeezed-IsSound budget total s i = record {
  droppable = i.droppable;
  floored =
      λ e. omega (arith, squeeze_width-floor s.col.min_width budget s.allotted total, i.floored e);
  unrelaxed = i.unrelaxed;
}

pub squeeze_atomics-IsSound :
    (budget : ℕ) (slots : List Slot) (total : ℕ)
    → All IsSound slots
    → All IsSound (squeeze_atomics budget slots total).slots
unfolding squeeze_atomics
squeeze_atomics-IsSound budget [] total i = tt
squeeze_atomics-IsSound budget (s ∷ slots) total i =
    if_intro (λ (g : Grid). All IsSound g.slots) (leb total budget) _ _ (λ _. i)
      λ _.
        if_intro (λ (g : Grid). All IsSound g.slots) (s.kept && s.col.atomic) _ _
          (λ _. (squeezed-IsSound budget total s i.0, squeeze_atomics-IsSound budget slots _ i.1))
          (λ _. (i.0, squeeze_atomics-IsSound budget slots total i.1))

pub cols-squeeze_atomics :
    (budget : ℕ) (slots : List Slot) (total : ℕ)
    → cols_of (squeeze_atomics budget slots total).slots ≡ cols_of slots
unfolding squeeze_atomics
cols-squeeze_atomics budget [] total = refl
cols-squeeze_atomics budget (s ∷ slots) total =
    let same = λ (g : Grid). cols_of g.slots ≡ s.col ∷ cols_of slots in
    if_intro same (leb total budget) _ _ (λ _. refl)
      λ _.
        if_intro same (s.kept && s.col.atomic) _ _
          (λ _. ap (λ cs. s.col ∷ cs) (cols-squeeze_atomics budget slots _))
          (λ _. ap (λ cs. s.col ∷ cs) (cols-squeeze_atomics budget slots total))

-- Parts (b) and (c) of step 5 do nothing within the budget.
shrink_below_min-done :
    (fuel least budget : ℕ) (g : Grid) → g.total ≤ budget → shrink_below_min fuel least budget g ≡ g
unfolding shrink_below_min
shrink_below_min-done zero least budget g h = refl
shrink_below_min-done (suc fuel) least budget g h = rw (le→ltb budget g.total h)

drop_right-done : (fuel budget : ℕ) (g : Grid) → g.total ≤ budget → drop_right fuel budget g ≡ g
unfolding drop_right
drop_right-done zero budget g h = refl
drop_right-done (suc fuel) budget g h = rw (le→ltb budget g.total h)

pub relax-done :
    (budget : ℕ) (mode : GlyphMode) (g : Grid)
    → (squeeze_atomics budget g.slots g.total).total ≤ budget
    → relax budget mode g ≡ squeeze_atomics budget g.slots g.total
unfolding relax
relax-done budget mode g h =
    let a = squeeze_atomics budget g.slots g.total in
    drop_right-done _ budget _
      (rw (shrink_below_min-done (a.total - budget) (relax_floor mode) budget a h) h)
    ∙ shrink_below_min-done (a.total - budget) (relax_floor mode) budget a h
