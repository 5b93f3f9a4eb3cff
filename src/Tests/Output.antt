-- ===== src/Tests/Output.antt =====
-- Runs of the output layer, and its theorems at concrete inputs.
use workspace_cli.Output.Alloc.{
  Cell, Col, Slot, chrome_for, clamp_budget, col_plain, col_state, display, drop_step, mark, plain,
  slots_from, drop_at, drop_candidate, drop_loop, drop_next, wider, widest_cell,
}
use workspace_cli.Output.Alloc.Budget.{allocate-le-budget, allocate_total, shown}
use workspace_cli.Output.Alloc.Drop.Loop.{Ordered, drop_step-Ordered}
use workspace_cli.Output.Alloc.Floors.Validated.{Keeps, validated-Keeps}
use workspace_cli.Output.Alloc.Result.{allocate, fit_step, relax_step, report, settle}
use workspace_cli.Output.Alloc.Shrink.{
  apply_parts, apportion, bump, insert_part, parts_of, shares_from, shrink_to_fit, sort_parts,
  subtract_at,
}
use workspace_cli.Output.Alloc.Shrink.Exact.{IsShrunk, shrink_to_fit-IsShrunk}
use workspace_cli.Output.Alloc.Validate.{validate_cols}
use workspace_cli.Output.State.{literal, role_default, state_ok, state_text}
use workspace_cli.Output.Text.{
  Text, ascii, pad, sanitise, sanitise_inline, trunc_head, trunc_mid, trunc_tail, truncate, utf8,
  width,
}
use workspace_cli.Output.Text.Contract.{width-truncate, width-pad}
use workspace_cli.Output.Wrap.{floor_one, wrap}
use workspace_cli.Output.Wrap.Budget.{KeepsTo, wrap_width}
use workspace_cli.Output.Wrap.Content.{ink-wrap}
use workspace_cli.Output.Wrap.Ink.{ink, ink_lines}
use workspace_cli.Prelude.{
  All, List, Option, [], false, length, map, max, none, refl, sum_by, true, ℕ, ◌+◌, ◌∷◌, ◌≡◌, ◌≤◌,
}

abbrev name_col : Col
name_col = record {
  title = literal "NAME";
  prio = 1;
  min_width = 6;
  trunc = trunc_mid;
  right = false;
  atomic = false;
  kind = col_plain;
}

abbrev addr_col : Col
addr_col = record {
  title = literal "ADDRESS";
  prio = 2;
  min_width = 8;
  trunc = trunc_head;
  right = false;
  atomic = false;
  kind = col_plain;
}

abbrev state_col : Col
state_col = record {
  title = literal "STATE";
  prio = 1;
  min_width = 6;
  trunc = trunc_tail;
  right = false;
  atomic = true;
  kind = col_state;
}

abbrev cols : List Col
cols = name_col ∷ addr_col ∷ state_col ∷ []

abbrev row : List Cell
row =
    plain (literal "a-rather-long-name") role_default
    ∷ plain (literal "203.0.113.7:443") role_default
    ∷ mark state_ok (literal "running")
    ∷ []

cols_are_valid : validate_cols cols ≡ none
unfolding validate_cols
cols_are_valid = refl

-- At 40 columns the two plain columns share the deficit.
allocate_at_40 :
    map (λ (o : Option ℕ). shown o) (allocate cols (row ∷ []) 40 utf8).widths ≡ 10 ∷ 11 ∷ 9 ∷ []
unfolding allocate report settle fit_step widest_cell wider drop_loop drop_next drop_candidate
    drop_at relax_step drop_step slots_from display sanitise_inline state_text shrink_to_fit
    apportion shares_from parts_of sort_parts insert_part bump apply_parts subtract_at width
    sanitise
allocate_at_40 = refl

validated-Keeps_example :
    Keeps cols (allocate cols (row ∷ []) 40 utf8).natural (allocate cols (row ∷ []) 40 utf8).widths
    × ((allocate cols (row ∷ []) 40 utf8).relaxed ≡ [])
validated-Keeps_example = validated-Keeps cols (row ∷ []) 40 utf8 cols_are_valid

allocate-le-budget_example : (allocate cols (row ∷ []) 20 ascii).total ≤ clamp_budget 20
allocate-le-budget_example = allocate-le-budget cols (row ∷ []) 20 ascii

allocate_total_example :
    (allocate cols (row ∷ []) 40 utf8).total
    ≡ chrome_for (length (allocate cols (row ∷ []) 40 utf8).kept)
      + sum_by shown (allocate cols (row ∷ []) 40 utf8).widths
allocate_total_example = allocate_total cols (row ∷ []) 40 utf8

abbrev slot : Col → ℕ → Slot
slot c w = record { col = c; natural = w; kept = true; allotted = w; relaxed = false }

abbrev slots : List Slot
slots = slot name_col 18 ∷ slot addr_col 15 ∷ slot state_col 9 ∷ []

shrink_to_fit-IsShrunk_example : IsShrunk 12 slots (shrink_to_fit 12 slots)
shrink_to_fit-IsShrunk_example = shrink_to_fit-IsShrunk 12 slots

drop_step-Ordered_example : (p : ℕ) × Ordered p (drop_step 30 slots)
drop_step-Ordered_example =
    drop_step-Ordered 30 slots ((refl, refl, refl), ((refl, refl, refl), ((refl, refl, refl), tt)))

abbrev message : Text
message = literal "proxy container is unhealthy, run ws proxy doctor"

wrap_width_example : All (KeepsTo (floor_one 20)) (wrap message 20)
wrap_width_example = wrap_width message 20

ink-wrap_example : ink_lines (wrap message 20) ≡ ink message
ink-wrap_example = ink-wrap message 20

width-truncate_example : width (truncate trunc_mid message 12 ascii) ≤ 12
width-truncate_example = width-truncate trunc_mid message 12 ascii

width-pad_example : width (pad (literal "ok") 5) ≡ max (width (literal "ok")) 5
width-pad_example = width-pad (literal "ok") 5
