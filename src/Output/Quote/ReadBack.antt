-- ===== src/Output/Quote/ReadBack.antt =====
-- A POSIX shell's reading of a quoted word.
-- The characters that mean something to a POSIX shell outside of quotes, with the braces, the
-- exclamation mark, the caret and the closing bracket, which they do to some.
use mathlib.Core.Path.{ap₂}
use workspace_cli.Output.Quote.{all_runes, bare_char, escape_quotes, is_bare, shell_quote, has_rune}
use workspace_cli.Prelude.{
  ==_iff, Bool, Bytes, Option, [], ap, both_iff, false, if_false, if_intro, if◌then◌else◌, none,
  not, not-true, refl, some, sym, true, ℕ, ◌++◌, ◌==◌, ◌||◌, ◌∙◌, ◌∷◌, ◌≡◌, subst, text_eq,
  Bool-cases, false≢true, inl, inr,
}

abbrev specials : Bytes
specials =
    9 ∷ 10 ∷ 32 ∷ 33 ∷ 34 ∷ 35 ∷ 36 ∷ 38 ∷ 39 ∷ 40 ∷ 41 ∷ 42 ∷ 59 ∷ 60 ∷ 62 ∷ 63 ∷ 91 ∷ 92 ∷ 93 ∷ 94
    ∷ 96 ∷ 123 ∷ 124 ∷ 125 ∷ 126 ∷ []

unfoldable is_special : ℕ → Bool
is_special c = has_rune (λ k. c == k) specials

abbrev push : ℕ → Option Bytes → Option Bytes
push c none = none
push c (some cs) = some (c ∷ cs)

pub data Mode : Type 0 where
  outside within escaped : Mode

-- One word as a shell reads it (quote removal); none when it is not one word, or not literal.
unfoldable pub read_from : Mode → Bytes → Option Bytes
unfolding is_special
read_from outside [] = some []
read_from within [] = none
read_from escaped [] = none
read_from outside (c ∷ cs) =
    let start = read_from within cs in
    let escape = read_from escaped cs in
    let rest = push c (read_from outside cs) in
    if c == 39 then start else if c == 92 then escape else if is_special c then none else rest
read_from within (c ∷ cs) =
    let close = read_from outside cs in
    let rest = push c (read_from within cs) in if c == 39 then close else rest
read_from escaped (c ∷ cs) = push c (read_from outside cs)

-- An empty text is no word, and one with = in front is a command's path to some shells.
unfoldable pub shell_read : Bytes → Option Bytes
unfolding read_from
shell_read [] = none
shell_read (c ∷ cs) = if c == 61 then none else read_from outside (c ∷ cs)

bare-differs : (c k : ℕ) → bare_char c ≡ true → bare_char k ≡ false → (c == k) ≡ false
bare-differs c k h n = elim (Bool-cases (c == k)) [
  | inl q ↦ absurd (false≢true (sym n ∙ ap bare_char (sym ((==_iff c k).0 q)) ∙ h))
  | inr q ↦ q
]

bare-none :
    (c : ℕ) (ks : Bytes)
    → bare_char c ≡ true
    → all_runes (λ k. not (bare_char k)) ks ≡ true
    → has_rune (λ k. c == k) ks ≡ false
unfolding all_runes has_rune
bare-none c [] h a = refl
bare-none c (k ∷ ks) h a =
    let (n, r) = (both_iff (not (bare_char k)) (all_runes (λ k. not (bare_char k)) ks)).0 a in
    ap₂ (λ x y. x || y) (bare-differs c k h (not-true (bare_char k) n)) (bare-none c ks h r)

bare-special : (c : ℕ) → bare_char c ≡ true → is_special c ≡ false
unfolding is_special all_runes bare_char
bare-special c h = bare-none c specials h refl

bare-quote : (c : ℕ) → bare_char c ≡ true → (c == 39) ≡ false
unfolding bare_char
bare-quote c h = bare-differs c 39 h refl

bare-backslash : (c : ℕ) → bare_char c ≡ true → (c == 92) ≡ false
unfolding bare_char
bare-backslash c h = bare-differs c 92 h refl

read_from-bare : (w : Bytes) → all_runes bare_char w ≡ true → read_from outside w ≡ some w
unfolding read_from all_runes
read_from-bare [] h = refl
read_from-bare (c ∷ cs) h =
    let (b, r) = (both_iff (bare_char c) (all_runes bare_char cs)).0 h in
    if_false (c == 39) _ _ (bare-quote c b)
    ∙ if_false (c == 92) _ _ (bare-backslash c b)
    ∙ if_false (is_special c) _ _ (bare-special c b)
    ∙ ap (push c) (read_from-bare cs r)

read_from-escape_quotes : (w : Bytes) → read_from within (escape_quotes w ++ 39 ∷ []) ≡ some w
unfolding read_from escape_quotes
read_from-escape_quotes [] = refl
read_from-escape_quotes (c ∷ cs) =
    if_intro (λ t. read_from within (t ++ 39 ∷ []) ≡ some (c ∷ cs)) (c == 39) _ _
      (λ h.
        ap (push 39) (read_from-escape_quotes cs)
        ∙ ap (λ x. some (x ∷ cs)) (sym ((==_iff c 39).0 h)))
      (λ h. if_false (c == 39) _ _ h ∙ ap (push c) (read_from-escape_quotes cs))

shell_read-bare : (w : Bytes) → is_bare w ≡ true → shell_read w ≡ some w
unfolding shell_read is_bare
shell_read-bare [] h = absurd cc
shell_read-bare (c ∷ cs) h =
    let (n, a) = (both_iff (not (c == 61)) (all_runes bare_char (c ∷ cs))).0 h in
    if_false (c == 61) _ _ (not-true _ n) ∙ read_from-bare (c ∷ cs) a

shell_read-quotes : (w : Bytes) → shell_read (39 ∷ escape_quotes w ++ 39 ∷ []) ≡ some w
unfolding shell_read read_from
shell_read-quotes w = read_from-escape_quotes w

judged :
    (hidden bare : Bool) (w quoted : Bytes)
    → (bare ≡ true → shell_read w ≡ some w)
    → (if hidden then none else if bare then some w else some (39 ∷ escape_quotes w ++ 39 ∷ []))
      ≡ some quoted
    → shell_read quoted ≡ some w
judged true bare w quoted k h = absurd cc
judged false true w quoted k h =
    let q : w ≡ quoted = cc in subst (λ t. shell_read t ≡ some w) q (k refl)
judged false false w quoted k h =
    let q : 39 ∷ escape_quotes w ++ 39 ∷ [] ≡ quoted = cc in
    subst (λ t. shell_read t ≡ some w) q (shell_read-quotes w)

-- Whatever Sanitise does, and whichever characters count as format characters: a word that is
-- quoted is read back by a POSIX shell as exactly that word.
pub shell_read-shell_quote :
    (sanitised : Bytes → Bytes) (is_format : ℕ → Bool) (word quoted : Bytes)
    → shell_quote sanitised is_format word ≡ some quoted
    → shell_read quoted ≡ some word
unfolding shell_quote
shell_read-shell_quote sanitised is_format word quoted h =
    judged
      (not (text_eq (sanitised word) word)
        || has_rune (λ c. c == 9 || c == 10) word
        || has_rune is_format word)
      (is_bare word) word quoted (shell_read-bare word) h
