-- ===== src/Output/Alloc/Relax.antt =====
-- Step 5 of the allocator, `relax`: its three parts in their fixed order.
pub mod Total
use workspace_cli.Output.Alloc.{ColKind, Slot, col_plain, col_state, count_kept, total_of}
use workspace_cli.Output.Text.{GlyphMode, marker_width}
use workspace_cli.Prelude.{
  Bool, List, Option, [], false, if◌then◌else◌, leb, length, ltb, none, not, some, suc, true, zero,
  ℕ, ◌&&◌, ◌-◌, ◌∷◌,
}

-- A list of slots with the running `total` of the source.
pub record Grid : Type 0 where
  pub slots : List Slot
  pub total : ℕ

-- The inner loop of (a) on one width.
unfoldable pub squeeze_width : ℕ → ℕ → ℕ → ℕ → ℕ × ℕ
squeeze_width least budget zero total = (0, total)
squeeze_width least budget (suc w) total =
    let rest = squeeze_width least budget w (total - 1) in
    if ltb least (suc w) && (ltb 1 (suc w) && ltb budget total) then rest else (suc w, total)

abbrev pub cons_slot : Slot → Grid → Grid
cons_slot s g = record g { slots = s ∷ g.slots }

-- (a) Squeeze atomic columns down to their floor, left to right.
unfoldable pub squeeze_atomics : ℕ → List Slot → ℕ → Grid
squeeze_atomics budget [] total = record { slots = []; total = total }
squeeze_atomics budget (s ∷ slots) total =
    let (w, left) = squeeze_width s.col.min_width budget s.allotted total in
    let squeezed = cons_slot (record s { allotted = w }) (squeeze_atomics budget slots left) in
    let skipped = cons_slot s (squeeze_atomics budget slots total) in
    if leb total budget
    then record { slots = s ∷ slots; total = total }
    else if s.kept && s.col.atomic
    then squeezed
    else skipped

abbrev pub is_state : ColKind → Bool
is_state col_plain = false
is_state col_state = true

-- `max(1, markerWidth(mode))`
abbrev pub relax_floor : GlyphMode → ℕ
relax_floor mode = if ltb (marker_width mode) 1 then 1 else marker_width mode

-- The scan of (b): the first of the widest kept columns above the floor that is no state column.
pub widest_from : ℕ → Option ℕ → ℕ → List Slot → Option ℕ
widest_from i widest w [] = widest
widest_from i widest w (s ∷ slots) =
    let better = s.kept && (not (is_state s.col.kind) && ltb w s.allotted) in
    widest_from (suc i) (if better then some i else widest) (if better then s.allotted else w) slots

pub relax_at : ℕ → List Slot → List Slot
relax_at i [] = []
relax_at zero (s ∷ slots) = record s { allotted = s.allotted - 1; relaxed = true } ∷ slots
relax_at (suc i) (s ∷ slots) = s ∷ relax_at i slots

unfoldable pub relax_next : Option ℕ → Grid → (Grid → Grid) → Grid
relax_next none g rest = g
relax_next (some i) g rest = rest (record { slots = relax_at i g.slots; total = g.total - 1 })

-- (b) Each round takes one column off the total, so the excess is enough fuel.
unfoldable pub shrink_below_min : ℕ → ℕ → ℕ → Grid → Grid
shrink_below_min zero least budget g = g
shrink_below_min (suc fuel) least budget g =
    let rest =
      relax_next (widest_from 0 none least g.slots) g (shrink_below_min fuel least budget) in
    if ltb budget g.total then rest else g

-- Drops the last kept column.
pub drop_last : List Slot → List Slot
drop_last [] = []
drop_last (s ∷ slots) =
    let rest = s ∷ drop_last slots in
    if ltb 0 (count_kept slots) then rest else record s { kept = false } ∷ slots

abbrev pub grid_total : List Slot → ℕ
grid_total slots = total_of (λ s. s.allotted) slots

-- (c) Each round drops a kept column, so the number of columns is enough fuel.
unfoldable pub drop_right : ℕ → ℕ → Grid → Grid
drop_right zero budget g = g
drop_right (suc fuel) budget g =
    let slots = drop_last g.slots in
    let rest = drop_right fuel budget (record { slots = slots; total = grid_total slots }) in
    if ltb budget g.total && ltb 0 (count_kept g.slots) then rest else g

unfoldable pub relax : ℕ → GlyphMode → Grid → Grid
relax budget mode g =
    let a = squeeze_atomics budget g.slots g.total in
    let b = shrink_below_min (a.total - budget) (relax_floor mode) budget a in
    drop_right (length b.slots) budget b
