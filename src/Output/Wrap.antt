-- ===== src/Output/Wrap.antt =====
-- `Wrap` and `wrapIndent` of internal/output/text.go, with strings.Fields and strings.Split.
-- The inner loop of `Wrap` takes the number of clusters of the word as its fuel: each round takes
-- at least one cluster off the word (Wrap/Budget.antt proves that the fuel is enough).
pub mod Budget
pub mod Ink
pub mod Content
use workspace_cli.Output.Text.{
  Cluster, Text, control, cut_at, escape, expand_tabs, glyph, newline, space, tab, width,
}
use workspace_cli.Prelude.{
  Bool, List, [], drop, false, if◌then◌else◌, is_empty, leb, length, ltb, map, not, replicate, suc,
  true, zero, ℕ, ◌&&◌, ◌++◌, ◌+◌, ◌-◌, ◌==◌, ◌||◌, ◌∷◌,
}

-- unicode.IsSpace, by which strings.Fields splits.
pub is_space : Cluster → Bool
is_space newline = true
is_space tab = true
is_space (control c) = (leb 9 c && leb c 13) || c == 0x85
is_space (escape c) = false
is_space (glyph w c) =
    c == b' '
    || c == 0xa0
    || c == 0x1680
    || (leb 0x2000 c && leb c 0x200a)
    || c == 0x2028
    || c == 0x2029
    || c == 0x202f
    || c == 0x205f
    || c == 0x3000

pub flush : Text → List Text → List Text
flush [] rest = rest
flush (c ∷ word) rest = (c ∷ word) ∷ rest

pub fields_from : Text → Text → List Text
fields_from word [] = flush word []
fields_from word (c ∷ s) =
    let ended = flush word (fields_from [] s) in
    let longer = fields_from (word ++ c ∷ []) s in if is_space c then ended else longer

pub fields : Text → List Text
fields s = fields_from [] s

-- strings.Split(s, "\n")
pub split_from : Text → Text → List Text
split_from line [] = line ∷ []
split_from line (newline ∷ s) = line ∷ split_from [] s
split_from line (c ∷ s) = split_from (line ++ c ∷ []) s

pub split_lines : Text → List Text
split_lines s = split_from [] s

-- The variables of the loops: the lines that are out, the pending line and the current word.
pub record Layout : Type 0 where
  pub out : List Text
  pub line : Text
  pub word : Text

pub emit_line : List Text → Text → List Text
emit_line out line = if is_empty line then out else out ++ line ∷ []

-- `firstCell(word)`
pub first_cell : Text → Text
first_cell [] = []
first_cell (c ∷ s) = c ∷ []

-- The piece that a hard break takes off: what fits, or one cluster wider than the budget.
pub head_piece : ℕ → Text → Text
head_piece w word = if is_empty (cut_at word w) then first_cell word else cut_at word w

-- One round of the loop: the pending line goes out, then the head of the word.
pub hard_break : ℕ → Layout → Layout
hard_break w l =
    let head = head_piece w l.word in
    record {
      out = emit_line l.out l.line ++ head ∷ [];
      line = [];
      word = drop (length head) l.word;
    }

-- `for W(word) > w`
pub break_word : ℕ → ℕ → Layout → Layout
break_word zero w l = l
break_word (suc fuel) w l =
    let rest = break_word fuel w (hard_break w l) in if ltb w (width l.word) then rest else l

-- The switch behind it.
pub place : ℕ → Layout → Layout
place w l =
    if is_empty l.line
    then record l { line = l.word }
    else if leb (width l.line + 1 + width l.word) w
    then record l { line = l.line ++ (space ∷ l.word) }
    else record l { out = l.out ++ l.line ∷ []; line = l.word }

pub wrap_word : ℕ → Layout → Text → Layout
wrap_word w l word = place w (break_word (length word) w (record l { word = word }))

pub wrap_words : ℕ → Layout → List Text → Layout
wrap_words w l [] = l
wrap_words w l (word ∷ words) = wrap_words w (wrap_word w l word) words

pub close_paragraph : ℕ → Layout → List Text
close_paragraph start l =
    if not (is_empty l.line) || length l.out == start then l.out ++ l.line ∷ [] else l.out

pub wrap_paragraph : ℕ → List Text → Text → List Text
wrap_paragraph w out para =
    close_paragraph (length out)
      (wrap_words w (record { out = out; line = []; word = [] }) (fields para))

pub wrap_paragraphs : ℕ → List Text → List Text → List Text
wrap_paragraphs w out [] = out
wrap_paragraphs w out (para ∷ paras) = wrap_paragraphs w (wrap_paragraph w out para) paras

-- `if w < 1 { w = 1 }`
abbrev pub floor_one : ℕ → ℕ
floor_one w = if ltb w 1 then 1 else w

unfoldable pub wrap : Text → ℕ → List Text
wrap s w = wrap_paragraphs (floor_one w) [] (split_lines (expand_tabs s))

-- `indent >= w` clamps to `w - 1`, at least 0, as the truncated subtraction does.
abbrev pub clamp_indent : ℕ → ℕ → ℕ
clamp_indent indent w = if leb w indent then w - 1 else indent

unfoldable pub wrap_indent : Text → ℕ → ℕ → List Text
wrap_indent body indent w =
    let n = clamp_indent indent w in map (λ l. replicate n space ++ l) (wrap body (w - n))
