-- ===== src/Output/Alloc/Validate.antt =====
-- `validateCols`: the sets of columns that the renderer refuses to be built with.
use workspace_cli.Output.Alloc.{Col, chrome_for, min_budget}
use workspace_cli.Prelude.{
  All, Bool, Bool-cases, List, Option, Option-cases, [], arith, if◌then◌else◌, inl, inr, leb, ltb,
  ltb→le, none, refl, some, suc, sum_by, ℕ, ◌&&◌, ◌+◌, ◌∷◌, ◌≡◌, ◌≤◌,
}

pub data ColsError : Type 0 where
  -- the column's position
  min_too_small : ℕ → ColsError
  -- the width that the un-droppable columns need
  too_wide : ℕ → ColsError

-- The columns that step 2 never drops.
abbrev pub is_forced : Col → Bool
is_forced c = leb c.prio 1

abbrev pub forced_width : List Col → ℕ
forced_width cols = sum_by (λ c. if is_forced c then c.min_width else 0) cols

abbrev pub forced_count : List Col → ℕ
forced_count cols = sum_by (λ c. if is_forced c then 1 else 0) cols

-- The loop stops at the first `Min` below 1.
pub small_min : ℕ → List Col → Option ColsError
small_min i [] = none
small_min i (c ∷ cols) =
    let rest = small_min (suc i) cols in if ltb c.min_width 1 then some (min_too_small i) else rest

abbrev pub forced_need : List Col → ℕ
forced_need cols = forced_width cols + chrome_for (forced_count cols)

pub check_forced : List Col → Option ColsError
check_forced cols =
    if ltb 0 (forced_count cols) && ltb min_budget (forced_need cols)
    then some (too_wide (forced_need cols))
    else none

first_error : Option ColsError → Option ColsError → Option ColsError
first_error none later = later
first_error (some e) later = some e

unfoldable pub validate_cols : List Col → Option ColsError
unfolding small_min check_forced first_error
validate_cols cols = first_error (small_min 0 cols) (check_forced cols)

pub record IsRenderable (cols : List Col) : Type 0 where
  pub mins : All (λ c. 1 ≤ c.min_width) cols
  pub fits : forced_need cols ≤ min_budget

small_min-mins :
    (i : ℕ) (cols : List Col) → small_min i cols ≡ none → All (λ c. 1 ≤ c.min_width) cols
unfolding small_min
small_min-mins i [] h = tt
small_min-mins i (c ∷ cols) h = elim (Bool-cases (ltb c.min_width 1)) [
  | inl e ↦ absurd (ground arith)
  | inr e ↦ (omega (arith, ltb→le _ _ e), small_min-mins (suc i) cols (rw e at h))
]

forced_nothing : (cols : List Col) → forced_count cols ≡ 0 → forced_width cols ≡ 0
forced_nothing [] h = refl
forced_nothing (c ∷ cols) h = ground (arith, forced_nothing cols)

-- A set of columns without an error has floors of at least 1, and its un-droppable columns fit the
-- narrowest budget at their floors.
pub validate_cols-IsRenderable : (cols : List Col) → validate_cols cols ≡ none → IsRenderable cols
unfolding validate_cols check_forced first_error
validate_cols-IsRenderable cols h = elim (Option-cases (small_min 0 cols)) [
  | inr (e, found) ↦ absurd (ground arith)
  | inl passed ↦ record {
    mins = small_min-mins 0 cols passed;
    fits = ground (arith, forced_nothing cols);
  }
]
