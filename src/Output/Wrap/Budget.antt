-- ===== src/Output/Wrap/Budget.antt =====
-- The lines that `Wrap` returns, and the budget.
use workspace_cli.Output.Text.{
  Cluster, Text, cluster_width, control, cut_at, escape, expand_tabs, glyph, newline, space, tab,
  width,
}
use workspace_cli.Output.Text.Width.{
  IsFlat, NotTab, columns, columns-cut_at, cut_at-IsFlat, expand_tabs-IsFlat, width-flat,
}
use workspace_cli.Output.Wrap.{
  Layout, break_word, close_paragraph, emit_line, fields, fields_from, first_cell, floor_one, flush,
  head_piece, is_space, place, split_from, split_lines, wrap, wrap_paragraph, wrap_paragraphs,
  wrap_word, wrap_words, hard_break,
}
use workspace_cli.Prelude.{
  All, All-append, All-map, List, [], arith, drop, if_intro, if◌then◌else◌, inl, inr, is_empty, leb,
  leb→le, length, length-drop-le, ltb, ltb→le, refl, suc, sum_by-append, zero, ℕ, ◌++◌, ◌+◌, ◌<◌,
  ◌∷◌, ◌≡◌, ◌≤◌, ◌⊎◌, not, ◌==◌, ◌||◌,
}

abbrev pub LineFits : ℕ → Text → Type 0
LineFits w l = IsFlat l × ((columns l ≤ w) ⊎ (length l ≡ 1))

-- Between two words: the lines out keep to the budget, and the pending line fits it.
pub record IsLaid (w : ℕ) (l : Layout) : Type 0 where
  pub out : All (LineFits w) l.out
  pub line_flat : IsFlat l.line
  pub line_fits : columns l.line ≤ w

flush-IsFlat :
    (word : Text) (rest : List Text) → IsFlat word → All IsFlat rest → All IsFlat (flush word rest)
unfolding flush
flush-IsFlat [] rest f h = h
flush-IsFlat (c ∷ word) rest f h = (f, h)

fields_from-IsFlat : (word s : Text) → IsFlat word → IsFlat s → All IsFlat (fields_from word s)
unfolding fields_from
fields_from-IsFlat word [] f h = flush-IsFlat word [] f tt
fields_from-IsFlat word (c ∷ s) f h =
    if_intro (All IsFlat) (is_space c) _ _
      (λ _. flush-IsFlat word _ f (fields_from-IsFlat [] s tt h.1))
      (λ _. fields_from-IsFlat (word ++ c ∷ []) s (All-append NotTab word _ f (h.0, tt)) h.1)

split_from-IsFlat : (line s : Text) → IsFlat line → IsFlat s → All IsFlat (split_from line s)
unfolding split_from
split_from-IsFlat line [] f h = (f, tt)
split_from-IsFlat line (newline ∷ s) f h = (f, split_from-IsFlat [] s tt h.1)
split_from-IsFlat line (tab ∷ s) f h = absurd h.0
split_from-IsFlat line (control c ∷ s) f h =
    split_from-IsFlat (line ++ control c ∷ []) s (All-append NotTab line _ f (tt, tt)) h.1
split_from-IsFlat line (escape c ∷ s) f h =
    split_from-IsFlat (line ++ escape c ∷ []) s (All-append NotTab line _ f (tt, tt)) h.1
split_from-IsFlat line (glyph a c ∷ s) f h =
    split_from-IsFlat (line ++ glyph a c ∷ []) s (All-append NotTab line _ f (tt, tt)) h.1

drop-IsFlat : (n : ℕ) (s : Text) → IsFlat s → IsFlat (drop n s)
drop-IsFlat zero s f = f
drop-IsFlat (suc n) [] f = tt
drop-IsFlat (suc n) (c ∷ s) f = drop-IsFlat n s f.1

emit_line-LineFits :
    (w : ℕ) (out : List Text) (line : Text)
    → All (LineFits w) out
    → LineFits w line
    → All (LineFits w) (emit_line out line)
unfolding emit_line
emit_line-LineFits w out line h k =
    if_intro (All (LineFits w)) (is_empty line) _ _ (λ _. h)
      (λ _. All-append (LineFits w) out (line ∷ []) h (k, tt))

first_cell-LineFits : (w : ℕ) (s : Text) → IsFlat s → LineFits w (first_cell s)
unfolding first_cell
first_cell-LineFits w [] f = (tt, inl (omega arith))
first_cell-LineFits w (c ∷ s) f = ((f.0, tt), inr refl)

head_piece-LineFits : (w : ℕ) (s : Text) → IsFlat s → LineFits w (head_piece w s)
unfolding head_piece
head_piece-LineFits w s f =
    if_intro (LineFits w) (is_empty (cut_at s w)) _ _ (λ _. first_cell-LineFits w s f)
      (λ _. (cut_at-IsFlat s w f, inl (columns-cut_at s w f)))

-- A hard break makes progress: the piece has a cluster unless the word has none.
head_piece-progress : (w : ℕ) (c : Cluster) (s : Text) → 0 < length (head_piece w (c ∷ s))
unfolding head_piece first_cell
head_piece-progress w c s = go (cut_at (c ∷ s) w)
  where
    go : (t : Text) → 0 < length (if is_empty t then c ∷ [] else t)
    go [] = omega arith
    go (d ∷ t) = omega arith

drop-head_piece :
    (w fuel : ℕ) (s : Text) → length s ≤ suc fuel → length (drop (length (head_piece w s)) s) ≤ fuel
drop-head_piece w fuel [] h =
    omega (arith, length-drop-le {0} (length (head_piece w [])) (let e : Text = [] in e))
drop-head_piece w fuel (c ∷ s) h =
    omega
      (arith, head_piece-progress w c s, length-drop-le {0} (length (head_piece w (c ∷ s))) (c ∷ s))

columns_nothing : (w : ℕ) (s : Text) → length s ≤ 0 → columns s ≤ w
columns_nothing w [] h = omega arith
columns_nothing w (c ∷ s) h = absurd (omega arith)

-- After the loop the word fits, if the fuel was the number of its clusters.
record IsBroken (w : ℕ) (l : Layout) : Type 0 where
  laid : IsLaid w l
  word_flat : IsFlat l.word
  word_fits : columns l.word ≤ w

break_word-IsBroken :
    (fuel w : ℕ) (l : Layout)
    → length l.word ≤ fuel
    → IsLaid w l
    → IsFlat l.word
    → IsBroken w (break_word fuel w l)
unfolding break_word hard_break
break_word-IsBroken zero w l m h f = record {
  laid = h;
  word_flat = f;
  word_fits = columns_nothing w l.word m;
}
break_word-IsBroken (suc fuel) w l m h f =
    if_intro (IsBroken w) (ltb w (width l.word)) _ _
      (λ _.
        break_word-IsBroken fuel w _ (drop-head_piece w fuel l.word m)
          (record {
            out =
                All-append (LineFits w) (emit_line l.out l.line) _
                  (emit_line-LineFits w l.out l.line h.out (h.line_flat, inl h.line_fits))
                  (head_piece-LineFits w l.word f, tt);
            line_flat = tt;
            line_fits = omega arith;
          })
          (drop-IsFlat _ l.word f))
      (λ e. record {
        laid = h;
        word_flat = f;
        word_fits = omega (arith, ltb→le _ _ e, width-flat l.word f);
      })

place-IsLaid : (w : ℕ) (l : Layout) → IsBroken w l → IsLaid w (place w l)
unfolding place
place-IsLaid w l b =
    if_intro (IsLaid w) (is_empty l.line) _ _
      (λ _. record { out = b.laid.out; line_flat = b.word_flat; line_fits = b.word_fits })
      λ _.
        if_intro (IsLaid w) (leb (width l.line + 1 + width l.word) w) _ _
          (λ e. record {
            out = b.laid.out;
            line_flat =
                All-append NotTab l.line (space ∷ l.word) b.laid.line_flat (tt, b.word_flat);
            line_fits = omega (
              arith,
              leb→le _ _ e,
              sum_by-append {0} cluster_width l.line (space ∷ l.word),
              width-flat l.line b.laid.line_flat,
              width-flat l.word b.word_flat,
            );
          })
          (λ _. record {
            out =
                All-append (LineFits w) l.out _ b.laid.out
                  ((b.laid.line_flat, inl b.laid.line_fits), tt);
            line_flat = b.word_flat;
            line_fits = b.word_fits;
          })

wrap_words-IsLaid :
    (w : ℕ) (l : Layout) (words : List Text)
    → All IsFlat words
    → IsLaid w l
    → IsLaid w (wrap_words w l words)
unfolding wrap_words wrap_word
wrap_words-IsLaid w l [] f h = h
wrap_words-IsLaid w l (word ∷ words) f h = wrap_words-IsLaid w (wrap_word w l word) words f.1 (
    place-IsLaid w _ (
      break_word-IsBroken (length word) w (record l { word = word }) (omega arith)
        (record { out = h.out; line_flat = h.line_flat; line_fits = h.line_fits }) f.0))

close_paragraph-LineFits :
    (w start : ℕ) (l : Layout) → IsLaid w l → All (LineFits w) (close_paragraph start l)
unfolding close_paragraph
close_paragraph-LineFits w start l h =
    let last : LineFits w l.line = (h.line_flat, inl h.line_fits) in
    if_intro (All (LineFits w)) (not (is_empty l.line) || length l.out == start) _ _
      (λ _. All-append (LineFits w) l.out (l.line ∷ []) h.out (last, tt)) (λ _. h.out)

wrap_paragraph-LineFits :
    (w : ℕ) (out : List Text) (para : Text)
    → IsFlat para
    → All (LineFits w) out
    → All (LineFits w) (wrap_paragraph w out para)
unfolding wrap_paragraph fields
wrap_paragraph-LineFits w out para f h = close_paragraph-LineFits w (length out) _ (
    wrap_words-IsLaid w (record { out = out; line = []; word = [] }) (fields_from [] para)
      (fields_from-IsFlat [] para tt f)
      (record { out = h; line_flat = tt; line_fits = omega arith }))

wrap_paragraphs-LineFits :
    (w : ℕ) (out paras : List Text)
    → All IsFlat paras
    → All (LineFits w) out
    → All (LineFits w) (wrap_paragraphs w out paras)
unfolding wrap_paragraphs
wrap_paragraphs-LineFits w out [] f h = h
wrap_paragraphs-LineFits w out (para ∷ paras) f h =
    wrap_paragraphs-LineFits w (wrap_paragraph w out para) paras f.1
      (wrap_paragraph-LineFits w out para f.0 h)

-- A line of `Wrap` as its caller measures it.
abbrev pub KeepsTo : ℕ → Text → Type 0
KeepsTo w l = (width l ≤ w) ⊎ (length l ≡ 1)

LineFits-KeepsTo : (w : ℕ) (l : Text) → LineFits w l → KeepsTo w l
LineFits-KeepsTo w l (f, inl h) = inl (omega (arith, width-flat l f))
LineFits-KeepsTo w l (f, inr h) = inr h

wrap-LineFits : (s : Text) (w : ℕ) → All (LineFits (floor_one w)) (wrap s w)
unfolding wrap split_lines
wrap-LineFits s w =
    wrap_paragraphs-LineFits (floor_one w) [] _
      (split_from-IsFlat [] (expand_tabs s) tt (expand_tabs-IsFlat s)) tt

-- Every line of `Wrap` is at most `w` columns wide (a budget of 0 counts as 1), or is one cluster.
pub wrap_width : (s : Text) (w : ℕ) → All (KeepsTo (floor_one w)) (wrap s w)
wrap_width s w = All-map _ _ (wrap s w) (LineFits-KeepsTo (floor_one w)) (wrap-LineFits s w)
