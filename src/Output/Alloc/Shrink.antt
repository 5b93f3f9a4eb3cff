-- ===== src/Output/Alloc/Shrink.antt =====
-- Step 3 of the allocator, `shrinkToFit`: largest-remainder apportionment of the deficit.
pub mod Sorting
pub mod Apportion
pub mod Exact
use workspace_cli.Output.Alloc.{Slot}
use workspace_cli.Prelude.{
  List, [], if◌then◌else◌, ltb, not, suc, sum_by, zero, ℕ, ◌%◌, ◌&&◌, ◌*◌, ◌+◌, ◌-◌, ◌/◌, ◌==◌, ◌∷◌,
}

pub record Share : Type 0 where
  pub index : ℕ
  pub slack : ℕ

pub record Part : Type 0 where
  pub index : ℕ
  pub base : ℕ
  pub remainder : ℕ

-- What a column can give: its width above its floor, if it is kept and not atomic.
abbrev pub slack_of : Slot → ℕ
slack_of s = if s.kept && not s.col.atomic then s.allotted - s.col.min_width else 0

-- The first loop, from column `i` on.
unfoldable pub shares_from : ℕ → List Slot → List Share
shares_from i [] = []
shares_from i (s ∷ slots) =
    let rest = shares_from (suc i) slots in
    if ltb 0 (slack_of s) then record { index = i; slack = slack_of s } ∷ rest else rest

abbrev pub total_slack : List Share → ℕ
total_slack shares = sum_by (λ s. s.slack) shares

unfoldable pub parts_of : ℕ → ℕ → List Share → List Part
parts_of take total [] = []
parts_of take total (s ∷ shares) =
    record { index = s.index; base = take * s.slack / total; remainder = take * s.slack % total }
    ∷ parts_of take total shares

-- sort.SliceStable by falling remainder, as a stable insertion sort.
unfoldable pub insert_part : Part → List Part → List Part
insert_part p [] = p ∷ []
insert_part p (q ∷ parts) =
    let after = q ∷ insert_part p parts in
    if ltb p.remainder q.remainder then after else p ∷ q ∷ parts

unfoldable pub sort_parts : List Part → List Part
sort_parts [] = []
sort_parts (p ∷ parts) = insert_part p (sort_parts parts)

-- `for k := 0; k < len(parts) && assigned < take; k++`, with `take - assigned` rounds left.
unfoldable pub bump : ℕ → List Part → List Part
bump zero parts = parts
bump (suc k) [] = []
bump (suc k) (p ∷ parts) = record p { base = p.base + 1 } ∷ bump k parts

unfoldable pub subtract_at : ℕ → ℕ → List Slot → List Slot
subtract_at i w [] = []
subtract_at zero w (s ∷ slots) = record s { allotted = s.allotted - w } ∷ slots
subtract_at (suc i) w (s ∷ slots) = s ∷ subtract_at i w slots

unfoldable pub apply_parts : List Part → List Slot → List Slot
apply_parts [] slots = slots
apply_parts (p ∷ parts) slots = apply_parts parts (subtract_at p.index p.base slots)

-- The parts as they are applied, for a deficit of `take` that the total slack covers.
unfoldable pub apportion : ℕ → List Share → List Part
apportion take shares =
    let parts = parts_of take (total_slack shares) shares in
    bump (take - sum_by (λ p. p.base) parts) (sort_parts parts)

unfoldable pub shrink_to_fit : ℕ → List Slot → List Slot
shrink_to_fit deficit slots =
    let shares = shares_from 0 slots in
    let take = if ltb (total_slack shares) deficit then total_slack shares else deficit in
    if total_slack shares == 0 then slots else apply_parts (apportion take shares) slots
