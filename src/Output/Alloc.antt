-- ===== src/Output/Alloc.antt =====
-- internal/output/alloc.go, the column allocator: the columns and cells, and steps 1 and 2.
-- The slices that the source indexes by column (`kept`, `Widths`, the `relaxed` set) are one list
-- of slots here; the result of `allocate` has the source's fields again. Priorities, floors and
-- widths are natural numbers: the source's are never negative.
pub mod Shrink
pub mod Relax
pub mod Result
pub mod Budget
pub mod Validate
pub mod Drop
pub mod Floors
use workspace_cli.Output.State.{Role, State, state_text}
use workspace_cli.Output.Text.{GlyphMode, Text, Trunc, sanitise_inline, width}
use workspace_cli.Prelude.{
  Bool, List, Option, [], drop, false, get_elem?, if◌then◌else◌, leb, length, ltb, none, some, suc,
  sum_by, true, zero, ℕ, ◌&&◌, ◌*◌, ◌+◌, ◌==◌, ◌∷◌,
}

pub data ColKind : Type 0 where
  col_plain col_state : ColKind

pub record Col : Type 0 where
  pub title : Text
  pub prio : ℕ
  pub min_width : ℕ
  pub trunc : Trunc
  pub right : Bool
  pub atomic : Bool
  pub kind : ColKind

-- `Col.title()`
abbrev pub heading : Col → Text
heading c = sanitise_inline c.title

-- A cell is text with a role, or a state with its label.
pub data Cell : Type 0 where
  plain : Text → Role → Cell
  mark : State → Text → Cell

unfoldable pub display : Cell → GlyphMode → Text
display (plain t role) mode = sanitise_inline t
display (mark st label) mode = state_text st (sanitise_inline label) mode

abbrev pub min_budget : ℕ
min_budget = 29

-- `clampBudget`; `min_budget` is `MinWidth`.
abbrev pub clamp_budget : ℕ → ℕ
clamp_budget w = if ltb w min_budget then min_budget else w

abbrev pub chrome_for : ℕ → ℕ
chrome_for n = if n == 0 then 0 else 3 * n + 1

-- One column during the allocation.
pub record Slot : Type 0 where
  pub col : Col
  pub natural : ℕ
  pub kept : Bool
  pub allotted : ℕ
  pub relaxed : Bool

unfoldable pub wider : GlyphMode → ℕ → Option Cell → ℕ
wider mode w none = w
wider mode w (some c) = if ltb w (width (display c mode)) then width (display c mode) else w

unfoldable pub widest_cell : GlyphMode → ℕ → List (List Cell) → ℕ → ℕ
widest_cell mode i [] w = w
widest_cell mode i (row ∷ rows) w = widest_cell mode i rows (wider mode w (get_elem? row i))

-- `naturalWidths`, and every column kept at its natural width.
unfoldable pub slots_from : GlyphMode → List (List Cell) → ℕ → List Col → List Slot
slots_from mode rows i [] = []
slots_from mode rows i (c ∷ cols) =
    let w = widest_cell mode i rows (width (heading c)) in
    record { col = c; natural = w; kept = true; allotted = w; relaxed = false }
    ∷ slots_from mode rows (suc i) cols

abbrev pub cols_of : List Slot → List Col
cols_of [] = []
cols_of (s ∷ slots) = s.col ∷ cols_of slots

abbrev pub if_kept : (Slot → ℕ) → Slot → ℕ
if_kept f s = if s.kept then f s else 0

-- `sumKept` and `countKept`
abbrev pub sum_kept : (Slot → ℕ) → List Slot → ℕ
sum_kept f slots = sum_by (if_kept f) slots

abbrev pub count_kept : List Slot → ℕ
count_kept slots = sum_kept (λ s. 1) slots

abbrev pub floor_of : Slot → ℕ
floor_of s =
    if s.col.atomic
    then s.natural
    else if ltb s.col.min_width s.natural
    then s.col.min_width
    else s.natural

abbrev pub total_of : (Slot → ℕ) → List Slot → ℕ
total_of f slots = sum_kept f slots + chrome_for (count_kept slots)

-- The scan for the column to drop: the highest `Prio` above 1, the rightmost among equals.
unfoldable pub drop_candidate : ℕ → Option ℕ → ℕ → List Slot → Option ℕ
drop_candidate i drop prio [] = drop
drop_candidate i drop prio (s ∷ slots) =
    let better = s.kept && (ltb 1 s.col.prio && leb prio s.col.prio) in
    drop_candidate (suc i) (if better then some i else drop) (if better then s.col.prio else prio)
      slots

unfoldable pub drop_at : ℕ → List Slot → List Slot
drop_at i [] = []
drop_at zero (s ∷ slots) = record s { kept = false } ∷ slots
drop_at (suc i) (s ∷ slots) = s ∷ drop_at i slots

unfoldable pub drop_next : Option ℕ → List Slot → (List Slot → List Slot) → List Slot
drop_next none slots rest = slots
drop_next (some i) slots rest = rest (drop_at i slots)

-- The loop of step 2. Each round drops a kept column, so the number of columns is enough fuel.
unfoldable pub drop_loop : ℕ → ℕ → List Slot → List Slot
drop_loop zero budget slots = slots
drop_loop (suc fuel) budget slots =
    let rest = drop_next (drop_candidate 0 none 1 slots) slots (drop_loop fuel budget) in
    if ltb budget (total_of floor_of slots) then rest else slots

-- Steps 1 and 2.
unfoldable pub drop_step : ℕ → List Slot → List Slot
drop_step budget slots =
    if leb (total_of (λ s. s.natural) slots) budget
    then slots
    else drop_loop (length slots) budget slots
