-- ===== src/Output/Alloc/Relax/Total.antt =====
-- The running total of step 5, and the width of the grid.
use workspace_cli.Output.Alloc.{Slot, count_kept, sum_kept, chrome_for}
use workspace_cli.Output.Alloc.Relax.{
  Grid, grid_total, relax_at, squeeze_atomics, squeeze_width, widest_from, drop_last, drop_right,
  is_state, relax, relax_floor, relax_next, shrink_below_min,
}
use workspace_cli.Output.Text.{GlyphMode}
use workspace_cli.Prelude.{
  List, Option, [], arith, inl, refl, some, suc, true, zero, ℕ, ◌+◌, ◌-◌, ◌<◌, ◌∷◌, ◌≡◌, ◌≤◌, ◌⊎◌,
  Bool-cases, if_intro, inr, length, ltb, ltb→lt, none, not, ◌&&◌, ap,
}

abbrev pub widths : List Slot → ℕ
widths slots = sum_kept (λ s. s.allotted) slots

abbrev pub IsBalanced : Grid → Type 0
IsBalanced g = g.total ≡ grid_total g.slots

-- The balance is kept by a change of the widths that the running total follows.
IsBalanced-step :
    (g h : Grid)
    → widths h.slots + g.total ≡ widths g.slots + h.total
    → count_kept h.slots ≡ count_kept g.slots
    → IsBalanced g
    → IsBalanced h
IsBalanced-step g h w c b = omega (arith, w, ap chrome_for c, b)

squeeze_width-balance :
    (least budget w total : ℕ)
    → (squeeze_width least budget w total).0 + total ≡ w + (squeeze_width least budget w total).1
unfolding squeeze_width
squeeze_width-balance least budget zero total = omega arith
squeeze_width-balance least budget (suc w) total =
    ground (arith, squeeze_width-balance least budget w (total - 1))

pub squeeze_atomics-balance :
    (budget : ℕ) (slots : List Slot) (total : ℕ)
    → (widths (squeeze_atomics budget slots total).slots + total
        ≡ widths slots + (squeeze_atomics budget slots total).total)
      × (count_kept (squeeze_atomics budget slots total).slots ≡ count_kept slots)
unfolding squeeze_atomics
squeeze_atomics-balance budget [] total = (omega arith, refl)
squeeze_atomics-balance budget (s ∷ slots) total = ground (
  arith,
  squeeze_width-balance s.col.min_width budget s.allotted total,
  squeeze_atomics-balance budget slots total,
  squeeze_atomics-balance budget slots (squeeze_width s.col.min_width budget s.allotted total).1,
)

-- Slot `i` is kept and wider than `w`.
abbrev pub KeptAbove : ℕ → ℕ → List Slot → Type 0
KeptAbove w i [] = ⊥
KeptAbove w zero (s ∷ slots) = (s.kept ≡ true) × (w < s.allotted)
KeptAbove w (suc i) (s ∷ slots) = KeptAbove w i slots

KeptAbove-mono : (v w i : ℕ) (slots : List Slot) → v ≤ w → KeptAbove w i slots → KeptAbove v i slots
KeptAbove-mono v w i [] h k = k
KeptAbove-mono v w zero (s ∷ slots) h k = (k.0, omega arith)
KeptAbove-mono v w (suc i) (s ∷ slots) h k = KeptAbove-mono v w i slots h k

-- Found in the scan, or what the scan started from.
abbrev Found : ℕ → Option ℕ → ℕ → List Slot → ℕ → Type 0
Found i start w slots j = (start ≡ some j) ⊎ ((n : ℕ) × (j ≡ i + n) × KeptAbove w n slots)

Found-tail :
    (i : ℕ) (start : Option ℕ) (w : ℕ) (s : Slot) (slots : List Slot) (j : ℕ)
    → Found (suc i) start w slots j
    → Found i start w (s ∷ slots) j
Found-tail i start w s slots j (inl e) = inl e
Found-tail i start w s slots j (inr (n, e, k)) = inr (suc n, omega arith, k)

-- The scan takes slot `s`, which is kept and wider than the widest so far.
Found-head :
    (i : ℕ) (start : Option ℕ) (w : ℕ) (s : Slot) (slots : List Slot) (j : ℕ)
    → (s.kept && (not (is_state s.col.kind) && ltb w s.allotted)) ≡ true
    → Found (suc i) (some i) s.allotted slots j
    → Found i start w (s ∷ slots) j
Found-head i start w s slots j b (inl e) = inr (0, ground arith, ground arith)
Found-head i start w s slots j b (inr (n, e, k)) =
    inr (suc n, omega arith, KeptAbove-mono w s.allotted n slots (ground arith) k)

widest_from-Found :
    (i : ℕ) (start : Option ℕ) (w : ℕ) (slots : List Slot) (j : ℕ)
    → widest_from i start w slots ≡ some j
    → Found i start w slots j
unfolding widest_from
widest_from-Found i start w [] j h = inl h
widest_from-Found i start w (s ∷ slots) j h =
    elim (Bool-cases (s.kept && (not (is_state s.col.kind) && ltb w s.allotted))) [
      | inl b ↦
          Found-head i start w s slots j b
            (widest_from-Found (suc i) (some i) s.allotted slots j (rw b at h))
      | inr b ↦
          Found-tail i start w s slots j (widest_from-Found (suc i) start w slots j (rw b at h))
    ]

relax_at-balance :
    (w i : ℕ) (slots : List Slot)
    → KeptAbove w i slots
    → (widths (relax_at i slots) + 1 ≡ widths slots)
      × (count_kept (relax_at i slots) ≡ count_kept slots)
unfolding relax_at
relax_at-balance w i [] h = absurd h
relax_at-balance w zero (s ∷ slots) h = ground arith
relax_at-balance w (suc i) (s ∷ slots) h = ground (arith, relax_at-balance w i slots h)

widest_from-KeptAbove :
    (least : ℕ) (slots : List Slot) (i : ℕ)
    → widest_from 0 none least slots ≡ some i
    → KeptAbove least i slots
widest_from-KeptAbove least slots i h = elim (widest_from-Found 0 none least slots i h) [
  | inl e ↦ cc
  | inr (n, e, k) ↦ rw (let same : i ≡ n = omega arith in same) k
]

-- One round of (b) keeps the balance.
relax_next-IsBalanced :
    (least : ℕ) (g : Grid) (rest : Grid → Grid) (o : Option ℕ)
    → widest_from 0 none least g.slots ≡ o
    → 0 < g.total
    → IsBalanced g
    → ((h : Grid) → IsBalanced h → IsBalanced (rest h))
    → IsBalanced (relax_next o g rest)
unfolding relax_next
relax_next-IsBalanced least g rest none e p b k = b
relax_next-IsBalanced least g rest (some i) e p b k =
    let step = relax_at-balance least i g.slots (widest_from-KeptAbove least g.slots i e) in
    let h : Grid = record { slots = relax_at i g.slots; total = g.total - 1 } in
    k h (IsBalanced-step g h (omega (arith, step.0, p)) step.1 b)

shrink_below_min-IsBalanced :
    (fuel least budget : ℕ) (g : Grid)
    → IsBalanced g
    → IsBalanced (shrink_below_min fuel least budget g)
unfolding shrink_below_min
shrink_below_min-IsBalanced zero least budget g b = b
shrink_below_min-IsBalanced (suc fuel) least budget g b =
    if_intro IsBalanced (ltb budget g.total) _ _
      (λ e.
        relax_next-IsBalanced least g (shrink_below_min fuel least budget) _ refl
          (omega (arith, ltb→lt _ _ e)) b (shrink_below_min-IsBalanced fuel least budget))
      (λ _. b)

count_kept-drop_last :
    (slots : List Slot) → 0 < count_kept slots → count_kept (drop_last slots) + 1 ≡ count_kept slots
unfolding drop_last
count_kept-drop_last [] h = absurd (omega arith)
count_kept-drop_last (s ∷ slots) h = ground (arith, count_kept-drop_last slots)

widths_none_kept : (slots : List Slot) → count_kept slots ≡ 0 → grid_total slots ≡ 0
widths_none_kept [] h = refl
widths_none_kept (s ∷ slots) h = ground (arith, widths_none_kept slots)

-- A grid that is balanced and at most `budget` wide.
pub record IsWithin (budget : ℕ) (g : Grid) : Type 0 where
  pub balanced : g.total ≡ grid_total g.slots
  pub fits : g.total ≤ budget

drop_right-IsWithin :
    (fuel budget : ℕ) (g : Grid)
    → count_kept g.slots ≤ fuel
    → IsBalanced g
    → IsWithin budget (drop_right fuel budget g)
unfolding drop_right
drop_right-IsWithin zero budget g m b = record {
  balanced = b;
  fits = omega (arith, b, widths_none_kept g.slots);
}
drop_right-IsWithin (suc fuel) budget g m b =
    if_intro (IsWithin budget) (ltb budget g.total && ltb 0 (count_kept g.slots)) _ _
      (λ e. drop_right-IsWithin fuel budget _ (ground (arith, count_kept-drop_last g.slots)) refl)
      (λ e. record { balanced = b; fits = ground (arith, widths_none_kept g.slots) })

pub count_kept-le-length : (slots : List Slot) → count_kept slots ≤ length slots
count_kept-le-length [] = omega arith
count_kept-le-length (s ∷ slots) = ground (arith, count_kept-le-length slots)

-- Whatever the columns, step 5 ends within the budget.
pub relax-IsWithin :
    (budget : ℕ) (mode : GlyphMode) (g : Grid)
    → g.total ≡ grid_total g.slots
    → IsWithin budget (relax budget mode g)
unfolding relax
relax-IsWithin budget mode g b =
    let a = squeeze_atomics budget g.slots g.total in
    let step = squeeze_atomics-balance budget g.slots g.total in
    let balanced = IsBalanced-step g a step.0 step.1 b in
    drop_right-IsWithin _ budget _ (count_kept-le-length _)
      (shrink_below_min-IsBalanced (a.total - budget) (relax_floor mode) budget a balanced)
