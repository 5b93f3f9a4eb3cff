-- ===== src/Output/Alloc/Result.antt =====
-- `Allocate`: the steps in order, and the fields of its result.
use workspace_cli.Output.Alloc.{
  Cell, Col, Slot, chrome_for, clamp_budget, count_kept, drop_step, heading, slots_from,
}
use workspace_cli.Output.Alloc.Relax.{Grid, grid_total, relax}
use workspace_cli.Output.Alloc.Shrink.{shrink_to_fit}
use workspace_cli.Output.Text.{Cluster, GlyphMode, Text, control, escape, glyph, newline, tab}
use workspace_cli.Prelude.{
  Bool, List, Option, [], false, if◌then◌else◌, ltb, map, none, not, some, suc, true, ℕ, ◌&&◌, ◌-◌,
  ◌==◌, ◌||◌, ◌∷◌,
}

pub record Alloc : Type 0 where
  pub natural : List ℕ
  pub widths : List (Option ℕ)
  pub kept : List ℕ
  pub dropped : List Text
  pub relaxed : List Text
  pub chrome : ℕ
  pub total : ℕ

-- A dropped column's width is -1 in the source, `none` here.
abbrev pub width_of : Slot → Option ℕ
width_of s = if s.kept then some s.allotted else none

unfoldable pub kept_from : ℕ → List Slot → List ℕ
kept_from i [] = []
kept_from i (s ∷ slots) = let rest = kept_from (suc i) slots in if s.kept then i ∷ rest else rest

unfoldable pub titles_where : (Slot → Bool) → List Slot → List Text
titles_where p [] = []
titles_where p (s ∷ slots) =
    let rest = titles_where p slots in if p s then heading s.col ∷ rest else rest

pub same_cluster : Cluster → Cluster → Bool
same_cluster newline newline = true
same_cluster tab tab = true
same_cluster (control c) (control d) = c == d
same_cluster (escape c) (escape d) = c == d
same_cluster (glyph v c) (glyph w d) = v == w && c == d
same_cluster _ _ = false

pub same_text : Text → Text → Bool
same_text [] [] = true
same_text (c ∷ s) (d ∷ t) = same_cluster c d && same_text s t
same_text _ _ = false

pub has_title : List Text → Text → Bool
has_title [] t = false
has_title (u ∷ titles) t = same_text u t || has_title titles t

-- A title that is hidden is not named as narrowed as well.
unfoldable pub without_titles : List Text → List Text → List Text
without_titles dropped [] = []
without_titles dropped (t ∷ titles) =
    let rest = without_titles dropped titles in if has_title dropped t then rest else t ∷ rest

-- Step 3, if the widths exceed the budget.
unfoldable pub fit_step : ℕ → List Slot → List Slot
fit_step budget kept =
    if ltb budget (grid_total kept) then shrink_to_fit (grid_total kept - budget) kept else kept

-- Step 5, if they still do.
unfoldable pub relax_step : ℕ → GlyphMode → List Slot → Grid
relax_step budget mode slots =
    let g : Grid = record { slots = slots; total = grid_total slots } in
    if ltb budget (grid_total slots) then relax budget mode g else g

-- Steps 1 to 5 on the slots.
unfoldable pub settle : ℕ → GlyphMode → List Slot → Grid
settle budget mode start = relax_step budget mode (fit_step budget (drop_step budget start))

unfoldable pub report : Grid → Alloc
report g =
    let dropped = titles_where (λ s. not s.kept) g.slots in
    let relaxed = titles_where (λ s. s.relaxed) g.slots in
    record {
      natural = map (λ s. s.natural) g.slots;
      widths = map (λ s. width_of s) g.slots;
      kept = kept_from 0 g.slots;
      dropped = dropped;
      relaxed = without_titles dropped relaxed;
      chrome = chrome_for (count_kept g.slots);
      total = g.total;
    }

unfoldable pub allocate : List Col → List (List Cell) → ℕ → GlyphMode → Alloc
allocate cols rows budget mode =
    report (settle (clamp_budget budget) mode (slots_from mode rows 0 cols))
