-- ===== src/Output/Text/Width.antt =====
-- The width contract of text.go: what `expandTabs`, the cuts and the pads do to the width of a text.
use workspace_cli.Output.Text.{
  Cluster, newline, tab, control, escape, glyph, Text, space, cluster_width, tab_stop, expand_from,
  expand_tabs, width, first_width, cut_from, cut_at, cut_leading, cut_at_end, GlyphMode, utf8,
  ascii, marker, marker_width,
}
use workspace_cli.Prelude.{
  ℕ, zero, suc, ◌+◌, ◌-◌, ◌%◌, ◌≤◌, ◌≡◌, refl, ap, ◌∙◌, [], ◌∷◌, inl, inr, arith, Bool-cases, ltb,
  ◌==◌, All, All-append, replicate, sum_by,
}

abbrev pub NotTab : Cluster → Type 0
NotTab tab = ⊥
NotTab newline = Unit
NotTab (control c) = Unit
NotTab (escape c) = Unit
NotTab (glyph w c) = Unit

-- A text in which no tab is left.
abbrev pub IsFlat : Text → Type 0
IsFlat = All NotTab

abbrev pub columns : Text → ℕ
columns = sum_by cluster_width

pub replicate-IsFlat : (n : ℕ) → IsFlat (replicate n space)
replicate-IsFlat zero = tt
replicate-IsFlat (suc n) = (tt, replicate-IsFlat n)

pub columns-replicate : (n : ℕ) → columns (replicate n space) ≡ n
columns-replicate zero = refl
columns-replicate (suc n) = omega (arith, columns-replicate n)

expand_from-IsFlat : (col : ℕ) (s : Text) → IsFlat (expand_from col s)
unfolding expand_from
expand_from-IsFlat col [] = tt
expand_from-IsFlat col (newline ∷ s) = (tt, expand_from-IsFlat 0 s)
expand_from-IsFlat col (tab ∷ s) =
    let n = tab_stop - col % tab_stop in
    All-append NotTab (replicate n space) _ (replicate-IsFlat n) (expand_from-IsFlat (col + n) s)
expand_from-IsFlat col (control c ∷ s) = (tt, expand_from-IsFlat _ s)
expand_from-IsFlat col (escape c ∷ s) = (tt, expand_from-IsFlat _ s)
expand_from-IsFlat col (glyph w c ∷ s) = (tt, expand_from-IsFlat _ s)

pub expand_from-flat : (col : ℕ) (s : Text) → IsFlat s → expand_from col s ≡ s
unfolding expand_from
expand_from-flat col [] f = refl
expand_from-flat col (newline ∷ s) f = ap (λ t. newline ∷ t) (expand_from-flat 0 s f.1)
expand_from-flat col (tab ∷ s) f = absurd f.0
expand_from-flat col (control c ∷ s) f = ap (λ t. control c ∷ t) (expand_from-flat _ s f.1)
expand_from-flat col (escape c ∷ s) f = ap (λ t. escape c ∷ t) (expand_from-flat _ s f.1)
expand_from-flat col (glyph w c ∷ s) f = ap (λ t. glyph w c ∷ t) (expand_from-flat _ s f.1)

pub expand_tabs-IsFlat : (s : Text) → IsFlat (expand_tabs s)
unfolding expand_tabs
expand_tabs-IsFlat s = expand_from-IsFlat 0 s

pub expand_tabs-flat : (s : Text) → IsFlat s → expand_tabs s ≡ s
unfolding expand_tabs
expand_tabs-flat s f = expand_from-flat 0 s f

pub width-flat : (s : Text) → IsFlat s → width s ≡ columns s
unfolding width
width-flat s f = ap columns (expand_tabs-flat s f)

pub width-expand_tabs : (s : Text) → width (expand_tabs s) ≡ width s
unfolding width
width-expand_tabs s = ap columns (expand_tabs-flat _ (expand_tabs-IsFlat s))

pub first_width-flat : (c : Cluster) → NotTab c → first_width c ≡ cluster_width c
unfolding first_width
first_width-flat c f = width-flat (c ∷ []) (f, tt) ∙ omega arith

sum-first_width : (s : Text) → IsFlat s → sum_by first_width s ≡ columns s
sum-first_width [] f = refl
sum-first_width (c ∷ s) f = omega (arith, first_width-flat c f.0, sum-first_width s f.1)

pub cut_from-IsFlat : (used w : ℕ) (s : Text) → IsFlat s → IsFlat (cut_from used w s)
unfolding cut_from
cut_from-IsFlat used w [] f = tt
cut_from-IsFlat used w (c ∷ s) f = elim (Bool-cases (ltb w (used + first_width c))) [
  | inl over ↦ rw over tt
  | inr fits ↦ rw fits (f.0, cut_from-IsFlat (used + first_width c) w s f.1)
]

cut_from-le : (used w : ℕ) (s : Text) → IsFlat s → used ≤ w → used + columns (cut_from used w s) ≤ w
unfolding cut_from
cut_from-le used w [] f h = omega arith
cut_from-le used w (c ∷ s) f h =
    ground (arith, first_width-flat c f.0, cut_from-le (used + first_width c) w s f.1)

pub cut_at-IsFlat : (s : Text) (w : ℕ) → IsFlat s → IsFlat (cut_at s w)
unfolding cut_at
cut_at-IsFlat s w f = elim (Bool-cases (w == 0)) [
  | inl e ↦ rw e tt
  | inr e ↦ rw e (cut_from-IsFlat 0 w s f)
]

pub columns-cut_at : (s : Text) (w : ℕ) → IsFlat s → columns (cut_at s w) ≤ w
unfolding cut_at
columns-cut_at s w f = ground (arith, cut_from-le 0 w s f)

cut_leading-IsFlat : (r w : ℕ) (s : Text) → IsFlat s → IsFlat (cut_leading r w s)
unfolding cut_leading
cut_leading-IsFlat r w [] f = tt
cut_leading-IsFlat r w (c ∷ s) f = elim (Bool-cases (ltb w r)) [
  | inl over ↦ rw over (cut_leading-IsFlat (r - first_width c) w s f.1)
  | inr fits ↦ rw fits f
]

cut_leading-le : (r w : ℕ) (s : Text) → IsFlat s → columns s ≤ r → columns (cut_leading r w s) ≤ w
unfolding cut_leading
cut_leading-le r w [] f h = omega arith
cut_leading-le r w (c ∷ s) f h =
    ground (arith, first_width-flat c f.0, cut_leading-le (r - first_width c) w s f.1)

pub cut_at_end-IsFlat : (s : Text) (w : ℕ) → IsFlat s → IsFlat (cut_at_end s w)
unfolding cut_at_end
cut_at_end-IsFlat s w f = elim (Bool-cases (w == 0)) [
  | inl e ↦ rw e tt
  | inr e ↦ rw e (cut_leading-IsFlat _ w s f)
]

pub columns-cut_at_end : (s : Text) (w : ℕ) → IsFlat s → columns (cut_at_end s w) ≤ w
unfolding cut_at_end
columns-cut_at_end s w f =
    ground (arith, sum-first_width s f, cut_leading-le (sum_by first_width s) w s f)

pub marker-IsFlat : (mode : GlyphMode) → IsFlat (marker mode)
marker-IsFlat utf8 = omega arith
marker-IsFlat ascii = omega arith

pub marker_width_lem : (mode : GlyphMode) → marker_width mode ≡ columns (marker mode)
unfolding marker_width
marker_width_lem mode = width-flat (marker mode) (marker-IsFlat mode)
