-- ===== src/Output/Alloc/Budget.antt =====
-- The width contract of the allocator: what `allocate` reports and what it may spend.
use workspace_cli.Output.Alloc.{
  Cell, Col, Slot, chrome_for, clamp_budget, count_kept, slots_from, sum_kept,
}
use workspace_cli.Output.Alloc.Relax.Total.{IsWithin, relax-IsWithin}
use workspace_cli.Output.Alloc.Result.{allocate, kept_from, report, settle, width_of, relax_step}
use workspace_cli.Output.Text.{GlyphMode}
use workspace_cli.Prelude.{
  List, Option, [], ap, arith, if_intro, length, ltb→le, map, none, refl, some, suc, sum_by, ℕ, ◌+◌,
  ◌∷◌, ◌≡◌, ◌≤◌,
}

settle-IsWithin :
    (budget : ℕ) (mode : GlyphMode) (start : List Slot) → IsWithin budget (settle budget mode start)
unfolding settle relax_step
settle-IsWithin budget mode start =
    if_intro (IsWithin budget) _ _ _ (λ _. relax-IsWithin budget mode _ refl)
      (λ e. record { balanced = refl; fits = ltb→le _ _ e })

-- The width of a column in the result, 0 for a dropped one.
abbrev pub shown : Option ℕ → ℕ
shown none = 0
shown (some w) = w

widths_of_report :
    (slots : List Slot)
    → sum_by shown (map (λ s. width_of s) slots) ≡ sum_kept (λ s. s.allotted) slots
widths_of_report [] = refl
widths_of_report (s ∷ slots) = ground (arith, widths_of_report slots)

length-kept_from : (i : ℕ) (slots : List Slot) → length (kept_from i slots) ≡ count_kept slots
unfolding kept_from
length-kept_from i [] = refl
length-kept_from i (s ∷ slots) = ground (arith, length-kept_from (suc i) slots)

-- For all columns, rows, budgets and glyph modes, the grid is at most as wide as the budget, which
-- counts as 29 below 29.
pub allocate-le-budget :
    (cols : List Col) (rows : List (List Cell)) (budget : ℕ) (mode : GlyphMode)
    → (allocate cols rows budget mode).total ≤ clamp_budget budget
unfolding allocate report
allocate-le-budget cols rows budget mode =
    (settle-IsWithin (clamp_budget budget) mode (slots_from mode rows 0 cols)).fits

-- The total that is reported is the chrome of the kept columns and the widths that are reported.
pub allocate_total :
    (cols : List Col) (rows : List (List Cell)) (budget : ℕ) (mode : GlyphMode)
    → (allocate cols rows budget mode).total
      ≡ chrome_for (length (allocate cols rows budget mode).kept)
        + sum_by shown (allocate cols rows budget mode).widths
unfolding allocate report
allocate_total cols rows budget mode =
    let g = settle (clamp_budget budget) mode (slots_from mode rows 0 cols) in
    let b = (settle-IsWithin (clamp_budget budget) mode (slots_from mode rows 0 cols)).balanced in
    omega (arith, b, widths_of_report g.slots, ap chrome_for (length-kept_from 0 g.slots))
