-- ===== src/Output/Quote.antt =====
-- `ShellQuote` of internal/output/shellword.go. A word is the list of its runes. What Sanitise makes
-- of a word, and Unicode's category Cf, are arguments.
pub mod ReadBack
use workspace_cli.Prelude.{
  Bool, Bytes, Option, [], false, if◌then◌else◌, leb, none, not, some, text_eq, true, ℕ, ◌&&◌, ◌++◌,
  ◌==◌, ◌||◌, ◌∷◌,
}

-- The runes of the constant bareChars: letters, digits and _./:=@%+,-
unfoldable pub bare_char : ℕ → Bool
bare_char c =
    (leb 65 c && leb c 90)
    || (leb 97 c && leb c 122)
    || (leb 48 c && leb c 57)
    || c == 95
    || c == 46
    || c == 47
    || c == 58
    || c == 61
    || c == 64
    || c == 37
    || c == 43
    || c == 44
    || c == 45

unfoldable pub all_runes : (ℕ → Bool) → Bytes → Bool
all_runes p [] = true
all_runes p (c ∷ cs) = p c && all_runes p cs

unfoldable pub has_rune : (ℕ → Bool) → Bytes → Bool
has_rune p [] = false
has_rune p (c ∷ cs) = p c || has_rune p cs

-- Not empty, not with = in front, and made of bare runes only.
unfoldable pub is_bare : Bytes → Bool
unfolding all_runes
is_bare [] = false
is_bare (c ∷ cs) = not (c == 61) && all_runes bare_char (c ∷ cs)

-- `strings.ReplaceAll` of a single quote by its end, an escaped quote and a new start.
unfoldable pub escape_quotes : Bytes → Bytes
escape_quotes [] = []
escape_quotes (c ∷ cs) =
    let rest = escape_quotes cs in if c == 39 then 39 ∷ 92 ∷ 39 ∷ 39 ∷ rest else c ∷ rest

-- none when the word must not be echoed.
unfoldable pub shell_quote : (Bytes → Bytes) → (ℕ → Bool) → Bytes → Option Bytes
unfolding is_bare has_rune
shell_quote sanitised is_format word =
    if not (text_eq (sanitised word) word)
      || has_rune (λ c. c == 9 || c == 10) word
      || has_rune is_format word
    then none
    else if is_bare word
    then some word
    else some (39 ∷ escape_quotes word ++ 39 ∷ [])
