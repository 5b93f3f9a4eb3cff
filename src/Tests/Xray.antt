-- ===== src/Tests/Xray.antt =====
-- Runs of internal/xray on a small store, and the theorems at these runs.
-- "de", "nl"
use workspace_cli.Prelude.{
  Bytes, Option, [], false, if◌then◌else◌, none, refl, some, text_eq, true, ◌↔◌, ◌∷◌, ◌≡◌,
}
use workspace_cli.Xray.Active.{
  name_or_empty, read_active_profile_name, remove_profile, active_of, check_named, check_removable,
  check_target, remove_checked,
}
use workspace_cli.Xray.Active.Removed.{IsRemoval, remove_profile-IsRemoval}
use workspace_cli.Xray.Commit.{
  Gates, Staged, rejected, test_stage, write_profile_validated, write_staged,
}
use workspace_cli.Xray.Commit.Gate.{IsClean, IsCommit, write_profile_validated-IsCommit}
use workspace_cli.Xray.Migrate.{
  Calls, check_clash, ensure_migrated, link_primary, migrate_file, migrate_legacy, migrate_node,
  migrate_ok, move_free,
}
use workspace_cli.Xray.Migrate.Safety.{IsMigration, ensure_migrated-IsMigration}
use workspace_cli.Xray.Name.{
  relative_target, validate_profile_name, all_name_chars, is_reserved, matches_name, name_char,
}
use workspace_cli.Xray.Name.Valid.{ValidName, validate_profile_name-ValidName}
use workspace_cli.Xray.Preserve.{apply_owned_keys, regenerate_profile, routing_key}
use workspace_cli.Xray.Preserve.Members.{IsSplice, apply_owned_keys-IsSplice}
use workspace_cli.Xray.Preserve.Regenerated.{IsRegeneration, regenerate_profile-IsRegeneration}
use workspace_cli.Xray.Store.{
  Content, Node, Store, atomic_symlink, file, link, object, set_profile, update,
}
use workspace_cli.Xray.Switch.{Steps, switch_to, switch_to_symlink_only, whole_dir}
use workspace_cli.Xray.Switch.NoReload.{Matches, switch_to_symlink_only-Matches}
use workspace_cli.Xray.Switch.Outcomes.{IsSwitch, switch_to-IsSwitch}

abbrev de : Bytes
de = 100 ∷ 101 ∷ []

abbrev nl : Bytes
nl = 110 ∷ 108 ∷ []

-- The members of the profiles: a dns section, and routings.
abbrev dns_key : Bytes
dns_key = 100 ∷ 110 ∷ 115 ∷ []

abbrev de_content : Content
de_content = object ((dns_key, 49 ∷ []) ∷ (routing_key, 50 ∷ []) ∷ [])

abbrev nl_content : Content
nl_content = object ((dns_key, 51 ∷ []) ∷ (routing_key, 52 ∷ []) ∷ [])

abbrev two_profiles : Bytes → Option Node
two_profiles n =
    if text_eq n de
    then some (file de_content)
    else if text_eq n nl
    then some (file nl_content)
    else none

-- The profile de is active.
abbrev de_active : Store
de_active = record {
  config = some (link (relative_target de));
  profiles = two_profiles;
  resolves = λ t. false;
}

-- A config from before the profiles.
abbrev unmigrated : Store
unmigrated = record { config = some (file de_content); profiles = λ n. none; resolves = λ t. false }

abbrev all_calls : Calls
all_calls = record {
  lstat_config = true;
  mkdir = true;
  lstat_primary = true;
  chmod = true;
  rename = true;
  symlink = true;
  swap = true;
}

-- Every step works but the restart.
abbrev no_restart : Steps
no_restart = record {
  bind = whole_dir;
  validates = true;
  symlink = true;
  swap = true;
  restarts = false;
  lives = true;
}

-- The proxy is ready, and rejects the profile.
abbrev rejecting : Gates
rejecting = record {
  ready = true;
  writes = true;
  globs = true;
  stages = true;
  accepts = false;
  renames = true;
  removes = λ x. true;
  stamp = 7;
}

abbrev with_debris : Staged
with_debris = record { store = de_active; stages = 3 ∷ [] }

abbrev no_links : Bytes → Option Content
no_links t = none

migrate_run : (ensure_migrated true all_calls unmigrated).0 ≡ migrate_ok true
unfolding ensure_migrated migrate_legacy migrate_node migrate_file check_clash move_free
    link_primary atomic_symlink
migrate_run = refl

reject_run : (write_profile_validated rejecting nl de_content with_debris).0 ≡ rejected
unfolding write_profile_validated write_staged test_stage
reject_run = refl

validate_profile_name-ValidName_example : (validate_profile_name nl ≡ none) ↔ ValidName nl
validate_profile_name-ValidName_example = validate_profile_name-ValidName nl

-- The profile that the link leads to is removed when only Readlink fails.
unreadable_link : (remove_profile true false true true de de_active).1.profiles de ≡ none
unfolding remove_profile remove_checked check_removable check_named check_target name_or_empty
    read_active_profile_name active_of set_profile update validate_profile_name is_reserved text_eq
    matches_name all_name_chars name_char
unreadable_link = refl

remove_profile-IsRemoval_example :
    IsRemoval true true nl de_active
      (remove_profile true true true true nl de_active).0
      (remove_profile true true true true nl de_active).1
remove_profile-IsRemoval_example = remove_profile-IsRemoval true true true true nl de_active

ensure_migrated-IsMigration_example :
    IsMigration
      (ensure_migrated true all_calls unmigrated).0
      unmigrated
      (ensure_migrated true all_calls unmigrated).1
ensure_migrated-IsMigration_example = ensure_migrated-IsMigration true all_calls unmigrated

switch_to-IsSwitch_example :
    IsSwitch no_restart nl
      (name_or_empty (read_active_profile_name true true de_active))
      de_active
      (switch_to true true no_restart nl de_active).0
      (switch_to true true no_restart nl de_active).1
switch_to-IsSwitch_example = switch_to-IsSwitch true true no_restart nl de_active

switch_to_symlink_only-Matches_example :
    ((switch_to_symlink_only no_restart nl de_active).1
      ≡ (switch_to true true no_restart nl de_active).1)
    × Matches
        (switch_to_symlink_only no_restart nl de_active).0
        (switch_to true true no_restart nl de_active).0
switch_to_symlink_only-Matches_example =
    switch_to_symlink_only-Matches true true no_restart nl de_active

write_profile_validated-IsCommit_example :
    IsCommit rejecting nl de_content de_active
      (write_profile_validated rejecting nl de_content with_debris).0
      (write_profile_validated rejecting nl de_content with_debris).1.store
    × IsClean rejecting (write_profile_validated rejecting nl de_content with_debris).1
write_profile_validated-IsCommit_example =
    write_profile_validated-IsCommit rejecting nl de_content with_debris

apply_owned_keys-IsSplice_example :
    IsSplice de_content
      ((routing_key, none) ∷ [])
      (apply_owned_keys de_content ((routing_key, none) ∷ []))
apply_owned_keys-IsSplice_example = apply_owned_keys-IsSplice de_content ((routing_key, none) ∷ [])

regenerate_profile-IsRegeneration_example :
    IsRegeneration no_links nl
      (read_active_profile_name true true de_active)
      de_active
      (regenerate_profile true true no_links true nl de_active).0
      (regenerate_profile true true no_links true nl de_active).1
regenerate_profile-IsRegeneration_example =
    regenerate_profile-IsRegeneration true true no_links true nl de_active
