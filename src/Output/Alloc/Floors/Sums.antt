-- ===== src/Output/Alloc/Floors/Sums.antt =====
-- The sums over the columns by which step 5 needs only its first part.
use workspace_cli.Output.Alloc.{Slot, chrome_for, cols_of, count_kept, floor_of, sum_kept}
use workspace_cli.Output.Alloc.Drop.{NoneAbove}
use workspace_cli.Output.Alloc.Relax.{squeeze_atomics, squeeze_width}
use workspace_cli.Output.Alloc.Relax.Total.{widths}
use workspace_cli.Output.Alloc.Shrink.{slack_of}
use workspace_cli.Output.Alloc.Shrink.Exact.{narrow, shrink_by, slack_at}
use workspace_cli.Output.Alloc.Validate.{forced_count, forced_width}
use workspace_cli.Prelude.{
  All, List, [], ap, arith, false, if◌then◌else◌, inr, le→leb, refl, suc, sum_by, zero, ℕ, ◌+◌, ◌-◌,
  ◌∷◌, ◌≡◌, ◌≤◌, ◌⊎◌,
}

abbrev pub rigid : (Slot → ℕ) → Slot → ℕ
rigid f s = if s.col.atomic then f s else 0

abbrev pub supple : (Slot → ℕ) → Slot → ℕ
supple f s = if s.col.atomic then 0 else f s

abbrev pub min_of : Slot → ℕ
min_of s = s.col.min_width

abbrev pub allotted_of : Slot → ℕ
allotted_of s = s.allotted

-- The columns as step 2 leaves them: at their natural widths.
abbrev pub AreNatural : List Slot → Type 0
AreNatural = All (λ s. (s.allotted ≡ s.natural) × (s.relaxed ≡ false))

-- What shrinking to the floors gives up is the slack.
pub floors_and_slack :
    (slots : List Slot)
    → AreNatural slots
    → sum_kept floor_of slots + sum_by slack_of slots ≡ widths slots
floors_and_slack [] n = refl
floors_and_slack (s ∷ slots) n = ground (arith, floors_and_slack slots n.1)

pub split-widths :
    (slots : List Slot)
    → widths slots ≡ sum_kept (rigid allotted_of) slots + sum_kept (supple allotted_of) slots
split-widths [] = refl
split-widths (s ∷ slots) = ground (arith, split-widths slots)

pub floors-le :
    (slots : List Slot)
    → AreNatural slots
    → sum_kept floor_of slots ≤ sum_kept (rigid allotted_of) slots + sum_kept (supple min_of) slots
floors-le [] n = omega arith
floors-le (s ∷ slots) n = ground (arith, floors-le slots n.1)

-- Shrinking leaves the atomic columns and the count alone.
pub rigid-shrink_by :
    (f : ℕ → ℕ) (slots : List Slot)
    → ((i : ℕ) → f i ≤ slack_at slots i)
    → sum_kept (rigid allotted_of) (shrink_by f slots) ≡ sum_kept (rigid allotted_of) slots
rigid-shrink_by f [] h = refl
rigid-shrink_by f (s ∷ slots) h =
    ground (arith, h 0, rigid-shrink_by (λ i. f (suc i)) slots (λ i. h (suc i)))

pub count_kept-shrink_by :
    (f : ℕ → ℕ) (slots : List Slot) → count_kept (shrink_by f slots) ≡ count_kept slots
count_kept-shrink_by f [] = refl
count_kept-shrink_by f (s ∷ slots) = ground (arith, count_kept-shrink_by (λ i. f (suc i)) slots)

pub mins-shrink_by :
    (g : Slot → ℕ) (f : ℕ → ℕ) (slots : List Slot)
    → ((s : Slot) (n : ℕ) → g (narrow n s) ≡ g s)
    → sum_kept g (shrink_by f slots) ≡ sum_kept g slots
mins-shrink_by g f [] h = refl
mins-shrink_by g f (s ∷ slots) h =
    ground (arith, h s (f 0), mins-shrink_by g (λ i. f (suc i)) slots h)

pub cols-shrink_by : (f : ℕ → ℕ) (slots : List Slot) → cols_of (shrink_by f slots) ≡ cols_of slots
cols-shrink_by f [] = refl
cols-shrink_by f (s ∷ slots) = ap (λ cs. s.col ∷ cs) (cols-shrink_by (λ i. f (suc i)) slots)

pub split-mins :
    (slots : List Slot)
    → sum_kept min_of slots ≡ sum_kept (rigid min_of) slots + sum_kept (supple min_of) slots
split-mins [] = refl
split-mins (s ∷ slots) = ground (arith, split-mins slots)

-- Squeezing stops within the budget, or at the floors.
squeeze_width_ends :
    (least budget w total : ℕ)
    → 1 ≤ least
    → ((squeeze_width least budget w total).1 ≤ budget)
      ⊎ ((squeeze_width least budget w total).0 ≤ least)
unfolding squeeze_width
squeeze_width_ends least budget zero total h = inr (omega arith)
squeeze_width_ends least budget (suc w) total h =
    ground (arith, squeeze_width_ends least budget w (total - 1) h)

squeeze_atomics-within :
    (budget : ℕ) (slots : List Slot) (total : ℕ)
    → total ≤ budget
    → (squeeze_atomics budget slots total).total ≤ budget
unfolding squeeze_atomics
squeeze_atomics-within budget [] total h = h
squeeze_atomics-within budget (s ∷ slots) total h = rw (le→leb total budget h) h

pub squeeze_atomics_ends :
    (budget : ℕ) (slots : List Slot) (total : ℕ)
    → All (λ c. 1 ≤ c.min_width) (cols_of slots)
    → ((squeeze_atomics budget slots total).total ≤ budget)
      ⊎ (sum_kept (rigid allotted_of) (squeeze_atomics budget slots total).slots
          ≤ sum_kept (rigid min_of) slots)
unfolding squeeze_atomics
squeeze_atomics_ends budget [] total m = inr (omega arith)
squeeze_atomics_ends budget (s ∷ slots) total m =
    let left = (squeeze_width s.col.min_width budget s.allotted total).1 in
    ground (
      arith,
      squeeze_width_ends s.col.min_width budget s.allotted total m.0,
      squeeze_atomics-within budget slots left,
      squeeze_atomics_ends budget slots left m.1,
      squeeze_atomics_ends budget slots total m.1,
    )

pub supple-squeeze_atomics :
    (budget : ℕ) (slots : List Slot) (total : ℕ)
    → sum_kept (supple allotted_of) (squeeze_atomics budget slots total).slots
      ≡ sum_kept (supple allotted_of) slots
unfolding squeeze_atomics
supple-squeeze_atomics budget [] total = refl
supple-squeeze_atomics budget (s ∷ slots) total = ground (
  arith,
  supple-squeeze_atomics budget slots (squeeze_width s.col.min_width budget s.allotted total).1,
  supple-squeeze_atomics budget slots total,
)

-- If only columns that step 2 may not drop are kept, `validateCols` has counted them.
pub forced_covers :
    (slots : List Slot)
    → NoneAbove 1 slots
    → (sum_kept min_of slots ≤ forced_width (cols_of slots))
      × (count_kept slots ≤ forced_count (cols_of slots))
forced_covers [] h = (omega arith, omega arith)
forced_covers (s ∷ slots) h = ground (arith, h.0, forced_covers slots h.1)

pub chrome_for_mono : (m n : ℕ) → m ≤ n → chrome_for m ≤ chrome_for n
chrome_for_mono m n h = ground arith
