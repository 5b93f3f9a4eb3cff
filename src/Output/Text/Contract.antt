-- ===== src/Output/Text/Contract.antt =====
-- What text.go promises its callers about truncation and padding.
use workspace_cli.Output.Text.{
  GlyphMode, Text, Trunc, clip_head, clip_mid, clip_tail, cluster_width, cut_at, cut_at_end,
  expand_tabs, marker, marker_width, pad, pad_left, space, trunc_head, trunc_mid, trunc_tail,
  truncate, width,
}
use workspace_cli.Output.Text.Width.{
  IsFlat, NotTab, columns, columns-cut_at, columns-cut_at_end, columns-replicate, cut_at-IsFlat,
  cut_at_end-IsFlat, expand_tabs-IsFlat, marker-IsFlat, marker_width_lem, replicate-IsFlat,
  width-expand_tabs, width-flat,
}
use workspace_cli.Prelude.{
  All-append, [], arith, if_intro, leb, leb→le, leb→lt, max, replicate, sum_by-append, true, ℕ,
  ◌++◌, ◌+◌, ◌-◌, ◌/◌, ◌==◌, ◌≡◌, ◌≤◌,
}

-- A tab-free text of at most `w` columns.
record Fits (w : ℕ) (s : Text) : Type 0 where
  flat : IsFlat s
  narrow : columns s ≤ w

Fits-cut_at : (s : Text) (w : ℕ) → IsFlat s → Fits w (cut_at s w)
Fits-cut_at s w f = record { flat = cut_at-IsFlat s w f; narrow = columns-cut_at s w f }

Fits-cut_at_end : (s : Text) (w : ℕ) → IsFlat s → Fits w (cut_at_end s w)
Fits-cut_at_end s w f = record { flat = cut_at_end-IsFlat s w f; narrow = columns-cut_at_end s w f }

Fits-append : (a b w : ℕ) (s t : Text) → Fits a s → Fits b t → a + b ≤ w → Fits w (s ++ t)
Fits-append a b w s t p q h = record {
  flat = All-append NotTab s t p.flat q.flat;
  narrow = omega (arith, sum_by-append {0} cluster_width s t, p.narrow, q.narrow);
}

Fits-marker : (mode : GlyphMode) → Fits (marker_width mode) (marker mode)
Fits-marker mode = record {
  flat = marker-IsFlat mode;
  narrow = omega (arith, marker_width_lem mode);
}

Fits-whole : (s : Text) (w : ℕ) → leb (width (expand_tabs s)) w ≡ true → Fits w (expand_tabs s)
Fits-whole s w h = record {
  flat = expand_tabs-IsFlat s;
  narrow = omega (arith, leb→le _ _ h, width-flat _ (expand_tabs-IsFlat s));
}

Fits-nil : (w : ℕ) → Fits w []
Fits-nil w = record { flat = tt; narrow = omega arith }

clip_tail-Fits : (s : Text) (w : ℕ) (mode : GlyphMode) → Fits w (clip_tail s w mode)
unfolding clip_tail
clip_tail-Fits s w mode =
    let f = expand_tabs-IsFlat s in
    if_intro (Fits w) (w == 0) _ _ (λ _. Fits-nil w)
      λ _. if_intro (Fits w) (leb (width (expand_tabs s)) w) _ _ (Fits-whole s w) λ _.
        if_intro (Fits w) (leb w (marker_width mode)) _ _ (λ _. Fits-cut_at _ w f)
          λ h.
            Fits-append (w - marker_width mode) (marker_width mode) w _ _ (Fits-cut_at _ _ f)
              (Fits-marker mode) (omega (arith, leb→lt _ _ h))

clip_head-Fits : (s : Text) (w : ℕ) (mode : GlyphMode) → Fits w (clip_head s w mode)
unfolding clip_head
clip_head-Fits s w mode =
    let f = expand_tabs-IsFlat s in
    if_intro (Fits w) (w == 0) _ _ (λ _. Fits-nil w)
      λ _. if_intro (Fits w) (leb (width (expand_tabs s)) w) _ _ (Fits-whole s w) λ _.
        if_intro (Fits w) (leb w (marker_width mode)) _ _ (λ _. Fits-cut_at_end _ w f)
          λ h.
            Fits-append (marker_width mode) (w - marker_width mode) w _ _ (Fits-marker mode)
              (Fits-cut_at_end _ _ f) (omega (arith, leb→lt _ _ h))

clip_mid-Fits : (s : Text) (w : ℕ) (mode : GlyphMode) → Fits w (clip_mid s w mode)
unfolding clip_mid
clip_mid-Fits s w mode =
    let f = expand_tabs-IsFlat s in
    let m = marker_width mode in
    let left = (w - m) / 2 in
    let right = w - m - left in
    if_intro (Fits w) (w == 0) _ _ (λ _. Fits-nil w)
      λ _. if_intro (Fits w) (leb (width (expand_tabs s)) w) _ _ (Fits-whole s w) λ _.
        if_intro (Fits w) (leb w (m + 1)) _ _ (λ _. clip_tail-Fits _ w mode)
          λ h.
            Fits-append left (m + right) w _ _ (Fits-cut_at _ left f)
              (Fits-append m right (m + right) _ _ (Fits-marker mode) (Fits-cut_at_end _ right f)
                (omega arith))
              (omega (arith, leb→lt _ _ h))

-- Whatever the mode, a truncated text is at most `w` columns wide, its marker included.
pub width-truncate :
    (t : Trunc) (s : Text) (w : ℕ) (mode : GlyphMode) → width (truncate t s w mode) ≤ w
unfolding truncate
width-truncate trunc_tail s w mode =
    let r = clip_tail-Fits s w mode in omega (arith, width-flat _ r.flat, r.narrow)
width-truncate trunc_head s w mode =
    let r = clip_head-Fits s w mode in omega (arith, width-flat _ r.flat, r.narrow)
width-truncate trunc_mid s w mode =
    let r = clip_mid-Fits s w mode in omega (arith, width-flat _ r.flat, r.narrow)

-- Padding makes a text exactly `w` columns wide, and leaves the width of a wider one.
pub width-pad : (s : Text) (w : ℕ) → width (pad s w) ≡ max (width s) w
unfolding pad
width-pad s w =
    let f = expand_tabs-IsFlat s in
    let n = w - width (expand_tabs s) in
    let spaces = replicate n space in
    omega (
      arith,
      width-flat (expand_tabs s ++ spaces) (All-append NotTab _ spaces f (replicate-IsFlat n)),
      sum_by-append {0} cluster_width (expand_tabs s) spaces,
      columns-replicate n,
      width-flat (expand_tabs s) f,
      width-expand_tabs s,
    )

-- The same on the left.
pub width-pad_left : (s : Text) (w : ℕ) → width (pad_left s w) ≡ max (width s) w
unfolding pad_left
width-pad_left s w =
    let f = expand_tabs-IsFlat s in
    let n = w - width (expand_tabs s) in
    let spaces = replicate n space in
    omega (
      arith,
      width-flat (spaces ++ expand_tabs s) (All-append NotTab spaces _ (replicate-IsFlat n) f),
      sum_by-append {0} cluster_width spaces (expand_tabs s),
      columns-replicate n,
      width-flat (expand_tabs s) f,
      width-expand_tabs s,
    )
