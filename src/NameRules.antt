-- ===== src/NameRules.antt =====
-- `ValidateName` of internal/workspace/validate.go and of internal/profile/validate.go. Strings are
-- lists of bytes.
pub mod Regex
use workspace_cli.Prelude.{
  Bool, Bytes, Option, [], false, if◌then◌else◌, leb, length, ltb, none, not, some, text_eq, ℕ,
  ◌&&◌, ◌==◌, ◌||◌, ◌∷◌,
}

-- [a-z0-9]
unfoldable pub alnum : ℕ → Bool
alnum c = (leb 97 c && leb c 122) || (leb 48 c && leb c 57)

-- [a-z0-9-]*[a-z0-9]$
unfoldable pub matches_tail : Bytes → Bool
matches_tail [] = false
matches_tail (c ∷ []) = alnum c
matches_tail (c ∷ d ∷ cs) = (alnum c || c == 45) && matches_tail (d ∷ cs)

-- `nameRegex`, the same in both files
unfoldable pub matches_regex : Bytes → Bool
unfolding matches_tail
matches_regex [] = false
matches_regex (c ∷ cs) = alnum c && matches_tail cs

pub data NameFault : Type 0 where
  bad_length bad_characters reserved_name : NameFault

-- The workspace's; none for nil.
unfoldable pub validate_workspace_name : Bytes → Option NameFault
validate_workspace_name name =
    if ltb (length name) 2 || ltb 64 (length name)
    then some bad_length
    else if not (matches_regex name)
    then some bad_characters
    else none

-- "proxy", "shared"
abbrev pub proxy_name : Bytes
proxy_name = 112 ∷ 114 ∷ 111 ∷ 120 ∷ 121 ∷ []

abbrev pub shared_name : Bytes
shared_name = 115 ∷ 104 ∷ 97 ∷ 114 ∷ 101 ∷ 100 ∷ []

-- The profile's.
unfoldable pub validate_name : Bytes → Option NameFault
validate_name name =
    if ltb (length name) 2 || ltb 64 (length name)
    then some bad_length
    else if not (matches_regex name)
    then some bad_characters
    else if text_eq name proxy_name || text_eq name shared_name
    then some reserved_name
    else none
