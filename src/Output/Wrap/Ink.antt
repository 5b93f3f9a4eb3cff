-- ===== src/Output/Wrap/Ink.antt =====
-- The characters of a text that are not white space, and what the steps before the layout of
-- internal/output/text.go's Wrap leave of them.
use mathlib.Core.List.{append-nil, append_assoc}
use workspace_cli.Output.Text.{
  Cluster, Text, control, escape, expand_from, glyph, newline, space, tab, tab_stop,
}
use workspace_cli.Output.Wrap.{fields_from, flush, is_space, split_from}
use workspace_cli.Prelude.{
  List, [], ap, arith, if_intro, if◌then◌else◌, refl, replicate, suc, sym, true, zero, ℕ, ◌%◌, ◌++◌,
  ◌+◌, ◌-◌, ◌∙◌, ◌∷◌, ◌≡◌,
}

-- The clusters of a text that are not white space, and those of several lines in order.
pub ink : Text → Text
ink [] = []
ink (c ∷ s) = let rest = ink s in if is_space c then rest else c ∷ rest

pub ink_lines : List Text → Text
ink_lines [] = []
ink_lines (l ∷ ls) = ink l ++ ink_lines ls

pub ink-append : (s t : Text) → ink (s ++ t) ≡ ink s ++ ink t
unfolding ink
ink-append [] t = refl
ink-append (c ∷ s) t = ground (arith, ink-append s t)

ink_lines-append : (ls ms : List Text) → ink_lines (ls ++ ms) ≡ ink_lines ls ++ ink_lines ms
unfolding ink_lines
ink_lines-append [] ms = refl
ink_lines-append (l ∷ ls) ms = simp (ink_lines-append ls ms, append_assoc)

pub ink_lines-nil : ink_lines [] ≡ []
unfolding ink_lines
ink_lines-nil = refl

pub ink_lines-cons : (l : Text) (ls : List Text) → ink_lines (l ∷ ls) ≡ ink l ++ ink_lines ls
unfolding ink_lines
ink_lines-cons l ls = refl

-- One more line behind others.
pub ink_lines-concat :
    (ls : List Text) (l : Text) → ink_lines (ls ++ l ∷ []) ≡ ink_lines ls ++ ink l
ink_lines-concat ls l = ink_lines-append ls (l ∷ []) ∙ (unfold ink_lines in simp append-nil)

ink_lines-flush :
    (word : Text) (rest : List Text) → ink_lines (flush word rest) ≡ ink word ++ ink_lines rest
unfolding flush
ink_lines-flush [] rest = unfold ink in refl
ink_lines-flush (c ∷ word) rest = unfold ink_lines in refl

pub ink-nil : ink [] ≡ []
unfolding ink
ink-nil = refl

pub ink-space : (c : Cluster) (s : Text) → is_space c ≡ true → ink (c ∷ s) ≡ ink s
unfolding ink
ink-space c s h = ground arith

pub ink-fields_from : (word s : Text) → ink_lines (fields_from word s) ≡ ink word ++ ink s
unfolding fields_from
ink-fields_from word [] = ink_lines-flush word [] ∙ (unfold ink ink_lines in refl)
ink-fields_from word (c ∷ s) =
    if_intro (λ r. ink_lines r ≡ ink word ++ ink (c ∷ s)) (is_space c) _ _
      (λ e.
        ink_lines-flush word _
        ∙ ap (λ t. ink word ++ t)
            (ink-fields_from [] s ∙ ap (λ t. t ++ ink s) ink-nil ∙ sym (ink-space c s e)))
      (λ _.
        ink-fields_from (word ++ c ∷ []) s
        ∙ ap (λ t. t ++ ink s) (ink-append word (c ∷ []))
        ∙ append_assoc (ink word) (ink (c ∷ [])) (ink s)
        ∙ ap (λ t. ink word ++ t) (sym (ink-append (c ∷ []) s)))

split-step :
    (line : Text) (c : Cluster) (s : Text) → ink (line ++ c ∷ []) ++ ink s ≡ ink line ++ ink (c ∷ s)
split-step line c s =
    ap (λ t. t ++ ink s) (ink-append line (c ∷ []))
    ∙ append_assoc (ink line) (ink (c ∷ [])) (ink s)
    ∙ ap (λ t. ink line ++ t) (sym (ink-append (c ∷ []) s))

pub ink-split_from : (line s : Text) → ink_lines (split_from line s) ≡ ink line ++ ink s
unfolding split_from
ink-split_from line [] = unfold ink ink_lines in refl
ink-split_from line (newline ∷ s) =
    ink_lines-cons line _
    ∙ ap (λ t. ink line ++ t)
        (ink-split_from [] s
          ∙ ap (λ t. t ++ ink s) ink-nil
          ∙ sym (ink-space newline s (unfold is_space in refl)))
ink-split_from line (tab ∷ s) = ink-split_from (line ++ tab ∷ []) s ∙ split-step line tab s
ink-split_from line (control c ∷ s) =
    ink-split_from (line ++ control c ∷ []) s ∙ split-step line (control c) s
ink-split_from line (escape c ∷ s) =
    ink-split_from (line ++ escape c ∷ []) s ∙ split-step line (escape c) s
ink-split_from line (glyph w c ∷ s) =
    ink-split_from (line ++ glyph w c ∷ []) s ∙ split-step line (glyph w c) s

ink-spaces : (n : ℕ) (s : Text) → ink (replicate n space ++ s) ≡ ink s
ink-spaces zero s = refl
ink-spaces (suc n) s =
    ink-space space (replicate n space ++ s) (unfold is_space in refl) ∙ ink-spaces n s

ink-cons : (c : Cluster) (s t : Text) → ink s ≡ ink t → ink (c ∷ s) ≡ ink (c ∷ t)
unfolding ink
ink-cons c s t h = rw h

pub ink-expand_from : (col : ℕ) (s : Text) → ink (expand_from col s) ≡ ink s
unfolding expand_from
ink-expand_from col [] = refl
ink-expand_from col (newline ∷ s) = ink-cons newline _ s (ink-expand_from 0 s)
ink-expand_from col (tab ∷ s) =
    let n = tab_stop - col % tab_stop in
    ink-spaces n _ ∙ ink-expand_from (col + n) s ∙ sym (ink-space tab s (unfold is_space in refl))
ink-expand_from col (control c ∷ s) = ink-cons (control c) _ s (ink-expand_from (col + 0) s)
ink-expand_from col (escape c ∷ s) = ink-cons (escape c) _ s (ink-expand_from (col + 0) s)
ink-expand_from col (glyph w c ∷ s) = ink-cons (glyph w c) _ s (ink-expand_from (col + w) s)
