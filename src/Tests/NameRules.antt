-- ===== src/Tests/NameRules.antt =====
-- Names of workspaces and profiles, and the theorem of the two validate.go files at one.
use workspace_cli.NameRules.{
  alnum, bad_characters, matches_regex, matches_tail, proxy_name, shared_name, validate_name,
  validate_workspace_name,
}
use workspace_cli.NameRules.Regex.{Accepted, validate_name-Accepted}
use workspace_cli.Prelude.{[], Bytes, none, refl, some, ◌↔◌, ◌∷◌, ◌≡◌, ◌≢◌}

-- "blog"
abbrev blog : Bytes
blog = 98 ∷ 108 ∷ 111 ∷ 103 ∷ []

-- "b-"
abbrev dashed : Bytes
dashed = 98 ∷ 45 ∷ []

dashed_rejected : validate_workspace_name dashed ≡ some bad_characters
unfolding validate_workspace_name matches_regex matches_tail alnum
dashed_rejected = refl

validate_name-Accepted_example :
    ((validate_workspace_name blog ≡ none) ↔ Accepted blog)
    × ((validate_name blog ≡ none) ↔ (Accepted blog × (blog ≢ proxy_name) × (blog ≢ shared_name)))
validate_name-Accepted_example = validate_name-Accepted blog
