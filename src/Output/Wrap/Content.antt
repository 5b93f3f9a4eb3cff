-- ===== src/Output/Wrap/Content.antt =====
-- The content of the lines that `Wrap` returns.
use mathlib.Core.List.{append-nil, append_assoc}
use workspace_cli.Output.Text.{
  Text, cut_at, cut_from, expand_from, first_width, space, expand_tabs, width,
}
use workspace_cli.Output.Wrap.{
  fields_from, is_space, Layout, emit_line, first_cell, hard_break, head_piece, split_from,
  break_word, close_paragraph, fields, floor_one, place, split_lines, wrap, wrap_paragraph,
  wrap_paragraphs, wrap_word, wrap_words,
}
use workspace_cli.Output.Wrap.Ink.{
  ink, ink-append, ink-expand_from, ink-fields_from, ink-nil, ink-space, ink-split_from, ink_lines,
  ink_lines-concat, ink_lines-cons, ink_lines-nil,
}
use workspace_cli.Prelude.{
  List, [], arith, if_intro, refl, true, ◌++◌, ◌∙◌, ◌∷◌, ◌≡◌, ap, drop, is_empty, length, ltb, suc,
  sym, zero, ℕ, ◌+◌, ◌==◌, leb, Bool, false, not, ◌||◌,
}

cut_from-drop :
    (used w : ℕ) (s : Text) → cut_from used w s ++ drop (length (cut_from used w s)) s ≡ s
unfolding cut_from
cut_from-drop used w [] = refl
cut_from-drop used w (c ∷ s) =
    if_intro (λ t. t ++ drop (length t) (c ∷ s) ≡ c ∷ s) (ltb w (used + first_width c)) _ _
      (λ _. refl) (λ _. ap (λ t. c ∷ t) (cut_from-drop (used + first_width c) w s))

cut_at-drop : (w : ℕ) (s : Text) → cut_at s w ++ drop (length (cut_at s w)) s ≡ s
unfolding cut_at
cut_at-drop w s =
    if_intro (λ t. t ++ drop (length t) s ≡ s) (w == 0) _ _ (λ _. refl) (λ _. cut_from-drop 0 w s)

first_cell-drop : (s : Text) → first_cell s ++ drop (length (first_cell s)) s ≡ s
unfolding first_cell
first_cell-drop [] = refl
first_cell-drop (c ∷ s) = refl

-- The piece of a hard break is a prefix of the word.
head_piece-drop : (w : ℕ) (s : Text) → head_piece w s ++ drop (length (head_piece w s)) s ≡ s
unfolding head_piece
head_piece-drop w s =
    if_intro (λ t. t ++ drop (length t) s ≡ s) (is_empty (cut_at s w)) _ _ (λ _. first_cell-drop s)
      (λ _. cut_at-drop w s)

-- What a layout has taken in: the lines out and the pending line.
settled : Layout → Text
settled l = ink_lines l.out ++ ink l.line

ink-emit_line :
    (out : List Text) (line : Text) → ink_lines (emit_line out line) ≡ ink_lines out ++ ink line
unfolding emit_line
ink-emit_line out [] = simp (ink-nil, append-nil)
ink-emit_line out (c ∷ line) = ink_lines-concat out (c ∷ line)

settled-hard_break :
    (w : ℕ) (l : Layout)
    → settled (hard_break w l) ++ ink (hard_break w l).word ≡ settled l ++ ink l.word
unfolding settled hard_break
settled-hard_break w l =
    let head = head_piece w l.word in
    simp (ink_lines-concat, ink-emit_line, ink-nil, append-nil, append_assoc)
      (ap (λ t. ink_lines l.out ++ (ink l.line ++ t))
        (sym (ink-append head (drop (length head) l.word)) ∙ ap ink (head_piece-drop w l.word)))

settled-break_word :
    (fuel w : ℕ) (l : Layout)
    → settled (break_word fuel w l) ++ ink (break_word fuel w l).word ≡ settled l ++ ink l.word
unfolding break_word
settled-break_word zero w l = refl
settled-break_word (suc fuel) w l =
    if_intro (λ r. settled r ++ ink r.word ≡ settled l ++ ink l.word) (ltb w (width l.word)) _ _
      (λ _. settled-break_word fuel w (hard_break w l) ∙ settled-hard_break w l) (λ _. refl)

-- An empty pending line adds nothing.
ink-is_empty :
    (out : List Text) (line : Text)
    → is_empty line ≡ true
    → ink_lines out ≡ ink_lines out ++ ink line
ink-is_empty out [] h = simp (ink-nil, append-nil)
ink-is_empty out (c ∷ line) h = cc

settled-place : (w : ℕ) (l : Layout) → settled (place w l) ≡ settled l ++ ink l.word
unfolding place settled
settled-place w l =
    if_intro (λ r. settled r ≡ settled l ++ ink l.word) (is_empty l.line) _ _
      (λ e. ap (λ t. t ++ ink l.word) (ink-is_empty l.out l.line e))
      λ _.
        if_intro (λ r. settled r ≡ settled l ++ ink l.word)
          (leb (width l.line + 1 + width l.word) w) _ _
          (λ _.
            simp (ink-append, append_assoc)
              (ap (λ t. ink_lines l.out ++ (ink l.line ++ t))
                (ink-space space l.word (unfold is_space in refl))))
          (λ _. ap (λ t. t ++ ink l.word) (ink_lines-concat l.out l.line))

settled-wrap_word :
    (w : ℕ) (l : Layout) (word : Text) → settled (wrap_word w l word) ≡ settled l ++ ink word
unfolding wrap_word
settled-wrap_word w l word =
    settled-place w _
    ∙ settled-break_word (length word) w (record l { word = word })
    ∙ (unfold settled in refl)

settled-wrap_words :
    (w : ℕ) (l : Layout) (words : List Text)
    → settled (wrap_words w l words) ≡ settled l ++ ink_lines words
unfolding wrap_words
settled-wrap_words w l [] = simp (ink_lines-nil, append-nil)
settled-wrap_words w l (word ∷ words) =
    settled-wrap_words w (wrap_word w l word) words
    ∙ ap (λ t. t ++ ink_lines words) (settled-wrap_word w l word)
    ∙ append_assoc (settled l) (ink word) (ink_lines words)
    ∙ ap (λ t. settled l ++ t) (sym (ink_lines-cons word words))

pending_empty : (a b : Bool) → (not a || b) ≡ false → a ≡ true
pending_empty a b h = ground arith

ink-close_paragraph : (start : ℕ) (l : Layout) → ink_lines (close_paragraph start l) ≡ settled l
unfolding close_paragraph settled
ink-close_paragraph start l =
    if_intro (λ r. ink_lines r ≡ settled l) (not (is_empty l.line) || length l.out == start) _ _
      (λ _. ink_lines-concat l.out l.line)
      (λ e. ink-is_empty l.out l.line (pending_empty (is_empty l.line) (length l.out == start) e))

settled-start :
    (out : List Text) → settled (record { out = out; line = []; word = [] }) ≡ ink_lines out
unfolding settled
settled-start out = simp (ink-nil, append-nil)

ink-wrap_paragraph :
    (w : ℕ) (out : List Text) (para : Text)
    → ink_lines (wrap_paragraph w out para) ≡ ink_lines out ++ ink para
unfolding wrap_paragraph fields
ink-wrap_paragraph w out para =
    ink-close_paragraph (length out) _
    ∙ settled-wrap_words w _ (fields_from [] para)
    ∙ simp (settled-start, ink-fields_from, ink-nil)

ink-wrap_paragraphs :
    (w : ℕ) (out paras : List Text)
    → ink_lines (wrap_paragraphs w out paras) ≡ ink_lines out ++ ink_lines paras
unfolding wrap_paragraphs
ink-wrap_paragraphs w out [] = simp (ink_lines-nil, append-nil)
ink-wrap_paragraphs w out (para ∷ paras) =
    ink-wrap_paragraphs w (wrap_paragraph w out para) paras
    ∙ ap (λ t. t ++ ink_lines paras) (ink-wrap_paragraph w out para)
    ∙ append_assoc (ink_lines out) (ink para) (ink_lines paras)
    ∙ ap (λ t. ink_lines out ++ t) (sym (ink_lines-cons para paras))

-- The lines of `Wrap`, one behind the other, hold the clusters of the text that are not white
-- space, each once and in the same order.
pub ink-wrap : (s : Text) (w : ℕ) → ink_lines (wrap s w) ≡ ink s
unfolding wrap split_lines expand_tabs
ink-wrap s w =
    ink-wrap_paragraphs (floor_one w) [] (split_from [] (expand_from 0 s))
    ∙ simp (ink_lines-nil, ink-split_from, ink-nil, ink-expand_from)
