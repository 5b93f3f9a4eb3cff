-- ===== src/Xray/Name.antt =====
-- Profile names (internal/xray/validate.go), and the name that a link's target stands for
-- (`filepath.Base` and `strings.TrimSuffix` as internal/xray/profile.go uses them). Strings are
-- lists of bytes.
pub mod Valid
pub mod Link
use workspace_cli.Prelude.{
  Bool, Option, [], false, if◌then◌else◌, is_empty, leb, length, none, some, true, ℕ, ◌&&◌, ◌++◌,
  ◌==◌, ◌||◌, ◌∷◌, Bytes, text_eq,
}

-- "config"
abbrev pub config_name : Bytes
config_name = 99 ∷ 111 ∷ 110 ∷ 102 ∷ 105 ∷ 103 ∷ []

-- "tmp"
abbrev pub tmp_name : Bytes
tmp_name = 116 ∷ 109 ∷ 112 ∷ []

-- ".json"
abbrev pub dot_json : Bytes
dot_json = 46 ∷ 106 ∷ 115 ∷ 111 ∷ 110 ∷ []

-- "profiles/"
abbrev pub profiles_slash : Bytes
profiles_slash = 112 ∷ 114 ∷ 111 ∷ 102 ∷ 105 ∷ 108 ∷ 101 ∷ 115 ∷ 47 ∷ []

pub data NameError : Type 0 where
  reserved malformed : NameError

-- `reservedProfileNames`
unfoldable pub is_reserved : Bytes → Bool
is_reserved name = text_eq name config_name || text_eq name tmp_name || is_empty name

-- [a-z0-9_-]
unfoldable pub name_char : ℕ → Bool
name_char c = (leb 97 c && leb c 122) || (leb 48 c && leb c 57) || c == 95 || c == 45

unfoldable pub all_name_chars : Bytes → Bool
all_name_chars [] = true
all_name_chars (c ∷ cs) = name_char c && all_name_chars cs

-- `profileNameRegex`
unfoldable pub matches_name : Bytes → Bool
matches_name name = all_name_chars name && (leb 1 (length name) && leb (length name) 32)

-- none for nil.
unfoldable pub validate_profile_name : Bytes → Option NameError
validate_profile_name name =
    if is_reserved name then some reserved else if matches_name name then none else some malformed

-- The path without the slashes at its end.
unfoldable pub strip_slashes : Bytes → Bytes
strip_slashes [] = []
strip_slashes (c ∷ cs) =
    let rest = strip_slashes cs in if is_empty rest && c == 47 then [] else c ∷ rest

unfoldable pub has_slash : Bytes → Bool
has_slash [] = false
has_slash (c ∷ cs) = c == 47 || has_slash cs

-- What stands behind the last slash.
unfoldable pub after_slash : Bytes → Bytes
after_slash [] = []
after_slash (c ∷ cs) =
    let rest = after_slash cs in if has_slash cs then rest else if c == 47 then cs else c ∷ cs

-- `filepath.Base`
unfoldable pub base : Bytes → Bytes
base path =
    let stripped = strip_slashes path in
    if is_empty path then 46 ∷ [] else if is_empty stripped then 47 ∷ [] else after_slash stripped

-- `strings.TrimSuffix(s, ".json")`
unfoldable pub trim_json : Bytes → Bytes
trim_json [] = []
trim_json (c ∷ cs) = let rest = trim_json cs in if text_eq (c ∷ cs) dot_json then [] else c ∷ rest

-- The name of the profile that a link to this target makes active.
unfoldable pub profile_of_target : Bytes → Bytes
profile_of_target target = trim_json (base target)

-- `filepath.Join("profiles", name+".json")`, for a valid name
unfoldable pub relative_target : Bytes → Bytes
relative_target name = profiles_slash ++ name ++ dot_json
