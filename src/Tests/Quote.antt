-- ===== src/Tests/Quote.antt =====
-- Quoted words, and the theorem of internal/output/shellword.go at one.
-- "it's", and its quoted form
use workspace_cli.Output.Quote.{all_runes, bare_char, escape_quotes, has_rune, is_bare, shell_quote}
use workspace_cli.Output.Quote.ReadBack.{shell_read, shell_read-shell_quote}
use workspace_cli.Prelude.{
  Bytes, [], ap, false, if◌then◌else◌, none, not, some, text_eq_refl, ◌∷◌, ◌≡◌, ◌||◌,
}

abbrev its : Bytes
its = 105 ∷ 116 ∷ 39 ∷ 115 ∷ []

abbrev quoted_its : Bytes
quoted_its = 39 ∷ 105 ∷ 116 ∷ 39 ∷ 92 ∷ 39 ∷ 39 ∷ 115 ∷ 39 ∷ []

its_quoted : shell_quote (λ w. w) (λ c. false) its ≡ some quoted_its
unfolding shell_quote is_bare has_rune all_runes bare_char escape_quotes
its_quoted = ap (λ b. if not b || false || false then none else some quoted_its) (text_eq_refl its)

shell_read-shell_quote_example : shell_read quoted_its ≡ some its
shell_read-shell_quote_example =
    shell_read-shell_quote (λ w. w) (λ c. false) its quoted_its its_quoted
