-- ===== src/Output/Text.antt =====
-- internal/output/text.go and the truncation marker of internal/output/glyph.go.
-- A text is the list of its grapheme clusters as x/ansi's stepper cuts them, each with the width
-- that x/ansi gives it, so the segmenter and the width table (a third-party package) are data of
-- the model, and `len`, slicing and concatenation of strings are those of lists. The deliberate
-- defects of mutants.go are off, as in a production build.
pub mod Width
pub mod Contract
use workspace_cli.Prelude.{
  ℕ, ◌+◌, ◌-◌, ◌/◌, ◌%◌, Bool, true, false, List, [], ◌∷◌, ◌++◌, map, ltb, leb, ◌==◌, if◌then◌else◌,
  replicate, sum_by,
}

pub data GlyphMode : Type 0 where
  utf8 ascii : GlyphMode

-- `control` is a control character other than tab and newline, `escape` a CSI or OSC sequence;
-- `glyph w c` is a printed cluster of width `w` whose first code point is `c`.
pub data Cluster : Type 0 where
  newline tab : Cluster
  control escape : ℕ → Cluster
  glyph : ℕ → ℕ → Cluster

abbrev pub Text : Type 0
Text = List Cluster

abbrev pub space : Cluster
space = glyph 1 b' '

-- ansi.StringWidth of one cluster.
abbrev pub cluster_width : Cluster → ℕ
cluster_width (glyph w c) = w
cluster_width _ = 0

abbrev pub tab_stop : ℕ
tab_stop = 8

unfoldable pub expand_from : ℕ → Text → Text
expand_from col [] = []
expand_from col (newline ∷ s) = newline ∷ expand_from 0 s
expand_from col (tab ∷ s) =
    let n = tab_stop - col % tab_stop in replicate n space ++ expand_from (col + n) s
expand_from col (c ∷ s) = c ∷ expand_from (col + cluster_width c) s

unfoldable pub expand_tabs : Text → Text
unfolding expand_from
expand_tabs = expand_from 0

-- W: the display width of a string in terminal columns.
unfoldable pub width : Text → ℕ
unfolding expand_tabs
width s = sum_by cluster_width (expand_tabs s)

pub is_kept : Cluster → Bool
is_kept (control c) = false
is_kept (escape c) = false
is_kept _ = true

-- ansi.Strip takes the escape sequences and the loop the controls; tab and newline are kept.
unfoldable pub sanitise : Text → Text
unfolding is_kept
sanitise [] = []
sanitise (c ∷ s) = let rest = sanitise s in if is_kept c then c ∷ rest else rest

fold_newline : Cluster → Cluster
fold_newline newline = space
fold_newline c = c

unfoldable pub sanitise_inline : Text → Text
unfolding fold_newline
sanitise_inline s = map fold_newline (sanitise s)

-- The width that `firstCell` returns with the leading cluster: W of that cluster alone.
unfoldable pub first_width : Cluster → ℕ
unfolding width
first_width c = width (c ∷ [])

-- The loop of `cutAt`, with `used` columns spent on what is already kept.
unfoldable pub cut_from : ℕ → ℕ → Text → Text
unfolding first_width
cut_from used w [] = []
cut_from used w (c ∷ s) =
    if ltb w (used + first_width c) then [] else c ∷ cut_from (used + first_width c) w s

unfoldable pub cut_at : Text → ℕ → Text
unfolding cut_from
cut_at s w = if w == 0 then [] else cut_from 0 w s

-- The second loop of `cutAtEnd`: it drops leading clusters while more than `w` columns remain.
pub cut_leading : ℕ → ℕ → Text → Text
unfolding first_width
cut_leading remaining w [] = []
cut_leading remaining w (c ∷ s) =
    let rest = cut_leading (remaining - first_width c) w s in
    if ltb w remaining then rest else c ∷ s

unfoldable pub cut_at_end : Text → ℕ → Text
unfolding cut_leading
cut_at_end s w = if w == 0 then [] else cut_leading (sum_by first_width s) w s

abbrev pub marker : GlyphMode → Text
marker utf8 = glyph 1 0x2026 ∷ []
marker ascii = glyph 1 b'.' ∷ glyph 1 b'.' ∷ glyph 1 b'.' ∷ []

unfoldable pub marker_width : GlyphMode → ℕ
unfolding width
marker_width mode = width (marker mode)

unfoldable pub clip_tail : Text → ℕ → GlyphMode → Text
clip_tail t w mode =
    let s = expand_tabs t in
    if w == 0
    then []
    else if leb (width s) w
    then s
    else if leb w (marker_width mode)
    then cut_at s w
    else cut_at s (w - marker_width mode) ++ marker mode

unfoldable pub clip_head : Text → ℕ → GlyphMode → Text
clip_head t w mode =
    let s = expand_tabs t in
    if w == 0
    then []
    else if leb (width s) w
    then s
    else if leb w (marker_width mode)
    then cut_at_end s w
    else marker mode ++ cut_at_end s (w - marker_width mode)

unfoldable pub clip_mid : Text → ℕ → GlyphMode → Text
clip_mid t w mode =
    let s = expand_tabs t in
    let left = (w - marker_width mode) / 2 in
    let right = w - marker_width mode - left in
    if w == 0
    then []
    else if leb (width s) w
    then s
    else if leb w (marker_width mode + 1)
    then clip_tail s w mode
    else cut_at s left ++ (marker mode ++ cut_at_end s right)

pub data Trunc : Type 0 where
  trunc_tail trunc_head trunc_mid : Trunc

unfoldable pub truncate : Trunc → Text → ℕ → GlyphMode → Text
truncate trunc_head s w mode = clip_head s w mode
truncate trunc_mid s w mode = clip_mid s w mode
truncate trunc_tail s w mode = clip_tail s w mode

-- `d > 0` is the test that the truncated subtraction makes: no spaces are added at 0.
unfoldable pub pad : Text → ℕ → Text
pad t w = let s = expand_tabs t in s ++ replicate (w - width s) space

unfoldable pub pad_left : Text → ℕ → Text
pad_left t w = let s = expand_tabs t in replicate (w - width s) space ++ s
