-- ===== src/Output/State.antt =====
-- internal/output/state.go: the state vocabulary, and the cells of a table that render it.
use Prim.Native.Char.{code}
use workspace_cli.Output.Text.{GlyphMode, Text, ascii, glyph, space, utf8}
use workspace_cli.Prelude.{String, [], if◌then◌else◌, is_empty, ◌++◌, ◌∷◌}

-- The text of an ASCII literal: one cluster of one column for each character.
abbrev pub literal : String → Text
literal String.[] = []
literal (String.◌∷◌ c s) = glyph 1 (code c) ∷ literal s

pub data State : Type 0 where
  state_ok state_advisory state_fail state_busy state_idle state_unknown : State

pub data Role : Type 0 where
  role_default role_ok role_warn role_fail role_info role_muted : Role

-- The columns of `stateDefs`. The UTF-8 marks are U+2713, U+26A0 and U+2717, of width 1.
abbrev pub state_mark : State → GlyphMode → Text
state_mark state_ok utf8 = glyph 1 0x2713 ∷ []
state_mark state_ok ascii = literal "+"
state_mark state_advisory utf8 = glyph 1 0x26a0 ∷ []
state_mark state_advisory ascii = literal "!"
state_mark state_fail utf8 = glyph 1 0x2717 ∷ []
state_mark state_fail ascii = literal "x"
state_mark state_busy mode = literal "~"
state_mark state_idle mode = literal "-"
state_mark state_unknown mode = literal "?"

abbrev pub state_word : State → Text
state_word state_ok = literal "ok"
state_word state_advisory = literal "degraded"
state_word state_fail = literal "failed"
state_word state_busy = literal "busy"
state_word state_idle = literal "idle"
state_word state_unknown = literal "unknown"

abbrev pub state_role : State → Role
state_role state_ok = role_ok
state_role state_advisory = role_warn
state_role state_fail = role_fail
state_role state_busy = role_info
state_role state_idle = role_muted
state_role state_unknown = role_muted

unfoldable pub state_text : State → Text → GlyphMode → Text
state_text st label mode =
    state_mark st mode ++ (space ∷ (if is_empty label then state_word st else label))
