-- ===== src/Xray/Migrate.antt =====
-- `MigrateLegacy` and `EnsureMigrated` of internal/xray/migrate.go: a regular file at
-- `cfg.XrayConfig` becomes profiles/primary.json, with a link to it.
pub mod Safety
use workspace_cli.Prelude.{
  Bool, Bytes, Option, [], false, if◌then◌else◌, none, not, some, true, ◌∷◌,
}
use workspace_cli.Xray.Name.{relative_target}
use workspace_cli.Xray.Store.{Content, Node, Store, atomic_symlink, file, link, other, update}

-- "primary"
abbrev pub primary_name : Bytes
primary_name = 112 ∷ 114 ∷ 105 ∷ 109 ∷ 97 ∷ 114 ∷ 121 ∷ []

-- Which of the calls work.
pub record Calls : Type 0 where
  pub lstat_config : Bool
  pub mkdir : Bool
  pub lstat_primary : Bool
  pub chmod : Bool
  pub rename : Bool
  pub symlink : Bool
  pub swap : Bool

pub data MigrateError : Type 0 where
  lstat_config_failed not_file_nor_link mkdir_failed clash lstat_primary_failed : MigrateError
  chmod_failed rename_failed link_failed migration_required : MigrateError

-- The flag is `migrated`.
pub data MigrateReply : Type 0 where
  migrate_ok : Bool → MigrateReply
  migrate_error : MigrateError → MigrateReply

-- Behind the rename: the link, or an error that says where the file went.
unfoldable pub link_primary : Calls → Store → MigrateReply × Store
link_primary f s =
    let (ok, s') = atomic_symlink f.symlink f.swap (relative_target primary_name) s in
    if ok then (migrate_ok true, s') else (migrate_error link_failed, s')

-- `os.Rename` of the file at the config's path to profiles/primary.json.
unfoldable pub move_config : Content → Store → Store
move_config c s = record s {
  config = none;
  profiles = update primary_name (some (file c)) s.profiles;
}

unfoldable pub move_free : Calls → Content → Store → MigrateReply × Store
unfolding link_primary move_config
move_free f c s =
    let moved = link_primary f (move_config c s) in
    if not f.chmod
    then (migrate_error chmod_failed, s)
    else if not f.rename
    then (migrate_error rename_failed, s)
    else moved

-- A profile named primary is never overwritten.
unfoldable pub check_clash : Calls → Content → Option Node → Store → MigrateReply × Store
unfolding move_free
check_clash f c (some found) s =
    (migrate_error (if f.lstat_primary then clash else lstat_primary_failed), s)
check_clash f c none s =
    let moved = move_free f c s in
    if f.lstat_primary then moved else (migrate_error lstat_primary_failed, s)

unfoldable pub migrate_file : Calls → Content → Store → MigrateReply × Store
unfolding check_clash
migrate_file f c s =
    let checked = check_clash f c (s.profiles primary_name) s in
    if f.mkdir then checked else (migrate_error mkdir_failed, s)

unfoldable pub migrate_node : Calls → Option Node → Store → MigrateReply × Store
unfolding migrate_file
migrate_node f none s = (migrate_ok false, s)
migrate_node f (some (link target)) s = (migrate_ok false, s)
migrate_node f (some other) s = (migrate_error not_file_nor_link, s)
migrate_node f (some (file c)) s = migrate_file f c s

unfoldable pub migrate_legacy : Calls → Store → MigrateReply × Store
unfolding migrate_node
migrate_legacy f s =
    let seen = migrate_node f s.config s in
    if f.lstat_config then seen else (migrate_error lstat_config_failed, s)

-- `--no-migrate`: only a look.
unfoldable pub would_migrate : Option Node → MigrateReply
would_migrate none = migrate_ok false
would_migrate (some (link target)) = migrate_ok false
would_migrate (some (file c)) = migrate_error migration_required
would_migrate (some other) = migrate_error not_file_nor_link

-- The flag of the reply only says that there is a notice.
unfoldable pub ensure_migrated : Bool → Calls → Store → MigrateReply × Store
unfolding migrate_legacy would_migrate
ensure_migrated true f s = migrate_legacy f s
ensure_migrated false f s =
    if f.lstat_config then (would_migrate s.config, s) else (migrate_error lstat_config_failed, s)
