-- ===== src/Output/Log.antt =====
-- A task's log, of internal/output/log.go: how what is read of its file becomes lines, and its tail.
-- Whether a line shows nothing once it is cleaned, and the truncation marker, are arguments.
pub mod Chunks
pub mod Last
pub mod Tail
use mathlib.Core.List.{reverse}
use workspace_cli.Prelude.{
  [], Bool, Bytes, List, Option, drop, false, if◌then◌else◌, leb, length, ltb, none, not, some, suc,
  true, zero, ℕ, ◌&&◌, ◌++◌, ◌+◌, ◌-◌, ◌==◌, ◌||◌, ◌∷◌,
}

abbrev pub tail_lines : ℕ
tail_lines = 20

abbrev pub line_cap : ℕ
line_cap = 1024

-- What the parser keeps between reads.
pub record Log : Type 0 where
  pub partial : Bytes
  pub cr : Bool
  pub full : Bool
  pub cut : Bool
  pub lines : List Bytes

-- utf8.RuneStart
unfoldable pub rune_start : ℕ → Bool
rune_start b = ltb b 128 || leb 192 b

-- The length of an encoding by its first byte; 1 for a byte that starts none.
unfoldable pub rune_length : ℕ → ℕ
rune_length b =
    if ltb b 194
    then 1
    else if ltb b 224
    then 2
    else if ltb b 240
    then 3
    else if ltb b 245
    then 4
    else 1

-- Whether a second byte can follow.
unfoldable pub second_ok : ℕ → ℕ → Bool
second_ok b c =
    if b == 224
    then leb 160 c && leb c 191
    else if b == 237
    then leb 128 c && leb c 159
    else if b == 240
    then leb 144 c && leb c 191
    else if b == 244
    then leb 128 c && leb c 143
    else leb 128 c && leb c 191

-- utf8.FullRune, of a byte and those behind it: an invalid encoding is a full one.
unfoldable pub full_rune : ℕ → Bytes → Bool
unfolding second_ok rune_length
full_rune b [] = leb (rune_length b) 1
full_rune b (c ∷ []) = leb (rune_length b) 2 || not (second_ok b c)
full_rune b (c ∷ d ∷ cs) =
    leb (rune_length b) (3 + length cs) || not (second_ok b c) || not (leb 128 d && leb d 191)

unfoldable pub take : ℕ → Bytes → Bytes
take zero xs = []
take (suc n) [] = []
take (suc n) (x ∷ xs) = x ∷ take n xs

-- trimIncompleteRune's search for the last byte that starts a rune, from the end; the bytes before it,
-- last first, when its rune is incomplete.
unfoldable pub incomplete_from : Bytes → Bytes → Option Bytes
unfolding rune_start full_rune
incomplete_from [] behind = none
incomplete_from (c ∷ front) behind =
    let rest = incomplete_from front (c ∷ behind) in
    if rune_start c then (if full_rune c behind then none else some front) else rest

unfoldable pub or_whole : Bytes → Option Bytes → Bytes
or_whole b none = b
or_whole b (some front) = reverse front

unfoldable pub trim_incomplete_rune : Bytes → Bytes
unfolding or_whole incomplete_from
trim_incomplete_rune b = or_whole b (incomplete_from (reverse b) [])

-- A carriage return before text starts the line again.
unfoldable pub restart : Log → Log
restart l = if l.cr then record l { partial = []; full = false; cr = false; cut = false } else l

-- `add` behind the restart.
unfoldable pub append_text : Bytes → Log → Log
unfolding take trim_incomplete_rune
append_text p l =
    let room = line_cap - length l.partial in
    if l.full
    then l
    else if ltb room (length p)
    then record l { partial = trim_incomplete_rune (l.partial ++ take room p); full = true }
    else record l { partial = l.partial ++ p }

unfoldable pub add : Bytes → Log → Log
unfolding append_text restart
add [] l = l
add (b ∷ p) l = append_text (b ∷ p) (restart l)

module _ (blank : Bytes → Bool) (marker : Bytes) where
  -- What is left of a rune at the start of a window; three bytes at most.
  unfoldable pub drop_continuation : ℕ → Bytes → Bytes
  drop_continuation zero line = line
  drop_continuation (suc n) [] = []
  drop_continuation (suc n) (b ∷ line) =
      let rest = drop_continuation n line in if rune_start b then b ∷ line else rest

  unfoldable pub marked : Bytes → Bytes
  unfolding take trim_incomplete_rune
  marked line =
      if blank line
      then line
      else if ltb line_cap (length (marker ++ line))
      then trim_incomplete_rune (take line_cap (marker ++ line))
      else marker ++ line

  unfoldable pub shown : Bool → Bytes → Bytes
  unfolding marked drop_continuation
  shown cut line = if cut then marked (drop_continuation 3 line) else line

  unfoldable pub keep_line : Bytes → List Bytes → List Bytes
  keep_line line ls = if length ls == tail_lines then drop 1 ls ++ line ∷ [] else ls ++ line ∷ []

  unfoldable pub end_line : Log → Log
  unfolding shown keep_line
  end_line l =
      let line = shown l.cut l.partial in
      let next = record l { partial = []; full = false; cut = false } in
      if blank line then next else record next { lines = keep_line line l.lines }

  -- `consume`, with the bytes of the line so far: up to a line break they are added at once.
  unfoldable pub consume_from : Bytes → Bytes → Log → Log
  unfolding add end_line
  consume_from seg [] l = add seg l
  consume_from seg (b ∷ p) l =
      let broken = consume_from [] p (end_line (record (add seg l) { cr = false })) in
      let returned = consume_from [] p (record (add seg l) { cr = true }) in
      let more = consume_from (seg ++ b ∷ []) p l in
      if b == 10 then broken else if b == 13 then returned else more

  unfoldable pub consume : Bytes → Log → Log
  unfolding consume_from
  consume p l = consume_from [] p l

  -- readNew's loop: what each read gives is consumed.
  unfoldable pub read_all : List Bytes → Log → Log
  unfolding consume
  read_all [] l = l
  read_all (p ∷ ps) l = read_all ps (consume p l)

  -- readNew, when it skips bytes: the byte before the window says whether a line is cut.
  unfoldable pub skip_to : ℕ → Log → Log
  skip_to before l = record {
    partial = [];
    cr = false;
    full = false;
    cut = not (before == 10) && not (before == 13);
    lines = [];
  }

  -- `Tail`, behind the read.
  unfoldable pub log_tail : Log → List Bytes
  unfolding shown
  log_tail l =
      let line = shown l.cut l.partial in
      let out = if blank line then l.lines else l.lines ++ line ∷ [] in
      if ltb tail_lines (length out) then drop (length out - tail_lines) out else out

-- The last of the lines, or an empty one when there is none.
unfoldable pub last_of : List Bytes → Bytes
last_of [] = []
last_of (l ∷ []) = l
last_of (l ∷ m ∷ ls) = last_of (m ∷ ls)

unfoldable pub live_line : (Bytes → Bool) → Bytes → Log → Bytes
unfolding shown last_of
live_line blank marker l =
    let line = shown blank marker l.cut l.partial in if blank line then last_of l.lines else line

abbrev pub new_log : Log
new_log = record { partial = []; cr = false; full = false; cut = false; lines = [] }
