-- ===== src/Xray/Migrate/Safety.antt =====
-- `EnsureMigrated`: what is kept, and a second run.
-- The file's content is the new profile, the profiles that there were are as before.
use workspace_cli.Prelude.{
  Bool, Bytes, Option, ap, false, if_intro, if◌then◌else◌, none, not, refl, some, true, ◌≡◌, ◌≢◌,
  ◌&&◌,
}
use workspace_cli.Xray.Active.{active, active_of, read_active_profile_name}
use workspace_cli.Xray.Migrate.{
  Calls, MigrateReply, check_clash, chmod_failed, clash, ensure_migrated, link_failed, link_primary,
  lstat_config_failed, lstat_primary_failed, migrate_error, migrate_file, migrate_legacy,
  migrate_node, migrate_ok, migration_required, mkdir_failed, move_config, move_free,
  not_file_nor_link, primary_name, rename_failed, would_migrate,
}
use workspace_cli.Xray.Name.{profile_of_target, relative_target, all_name_chars, name_char}
use workspace_cli.Xray.Name.Link.{profile_of_target-relative_target}
use workspace_cli.Xray.Name.Valid.{all_name_chars-All}
use workspace_cli.Xray.Store.{
  Content, Node, Store, atomic_symlink, file, link, other, set_config, update-other, update-same,
}

abbrev pub Moved : Store → Store → Type 0
Moved s s' =
    (c : Content) × (s.config ≡ some (file c))
    × (s.profiles primary_name ≡ none)
    × (s'.profiles primary_name ≡ some (file c))
    × ((n : Bytes) → n ≢ primary_name → s'.profiles n ≡ s.profiles n)

-- The link is there, so that there is nothing left to migrate.
abbrev pub Linked : Store → Type 0
Linked s' =
    (s'.config ≡ some (link (relative_target primary_name)))
    × (read_active_profile_name true true s' ≡ active primary_name)
    × ((f : Calls) → f.lstat_config ≡ true → migrate_legacy f s' ≡ (migrate_ok false, s'))

abbrev pub IsMigration : MigrateReply → Store → Store → Type 0
IsMigration (migrate_ok false) s s' = s' ≡ s
IsMigration (migrate_ok true) s s' = Moved s s' × Linked s'
IsMigration (migrate_error link_failed) s s' = Moved s s' × (s'.config ≡ none)
IsMigration (migrate_error lstat_config_failed) s s' = s' ≡ s
IsMigration (migrate_error not_file_nor_link) s s' = s' ≡ s
IsMigration (migrate_error mkdir_failed) s s' = s' ≡ s
IsMigration (migrate_error clash) s s' = s' ≡ s
IsMigration (migrate_error lstat_primary_failed) s s' = s' ≡ s
IsMigration (migrate_error chmod_failed) s s' = s' ≡ s
IsMigration (migrate_error rename_failed) s s' = s' ≡ s
IsMigration (migrate_error migration_required) s s' = s' ≡ s

abbrev Out : Store → MigrateReply × Store → Type 0
Out s r = IsMigration r.0 s r.1

move_config-Moved :
    (c : Content) (s : Store)
    → s.config ≡ some (file c)
    → s.profiles primary_name ≡ none
    → Moved s (move_config c s)
unfolding move_config
move_config-Moved c s q p = (
  c,
  q,
  p,
  update-same primary_name (some (file c)) s.profiles,
  λ n h. update-other primary_name n (some (file c)) s.profiles h,
)

-- The name of the link's target is the profile's, as every character of it is accepted.
active-primary : profile_of_target (relative_target primary_name) ≡ primary_name
unfolding all_name_chars name_char
active-primary =
    profile_of_target-relative_target primary_name (all_name_chars-All primary_name refl)

set_config-Linked : (s : Store) → Linked (set_config (link (relative_target primary_name)) s)
unfolding set_config read_active_profile_name active_of migrate_legacy migrate_node
set_config-Linked s =
    let t = set_config (link (relative_target primary_name)) s in
    (
      refl,
      ap active active-primary,
      λ f h.
          ap (λ b. if b then migrate_node f t.config t else (migrate_error lstat_config_failed, t))
            h,
    )

link_primary-IsMigration :
    (f : Calls) (c : Content) (s : Store)
    → s.config ≡ some (file c)
    → s.profiles primary_name ≡ none
    → Out s (link_primary f (move_config c s))
unfolding link_primary atomic_symlink move_config set_config
link_primary-IsMigration f c s q p =
    if_intro
      (λ (r : Bool × Store).
        Out s (if r.0 then (migrate_ok true, r.1) else (migrate_error link_failed, r.1)))
      (f.symlink && f.swap) _ _
      (λ _. (move_config-Moved c s q p, set_config-Linked (move_config c s)))
      (λ _. (move_config-Moved c s q p, refl))

move_free-IsMigration :
    (f : Calls) (c : Content) (s : Store)
    → s.config ≡ some (file c)
    → s.profiles primary_name ≡ none
    → Out s (move_free f c s)
unfolding move_free
move_free-IsMigration f c s q p =
    if_intro (Out s) (not f.chmod) _ _ (λ _. refl)
      λ _. if_intro (Out s) (not f.rename) _ _ (λ _. refl) (λ _. link_primary-IsMigration f c s q p)

check_clash-IsMigration :
    (f : Calls) (c : Content) (found : Option Node) (s : Store)
    → s.config ≡ some (file c)
    → s.profiles primary_name ≡ found
    → Out s (check_clash f c found s)
unfolding check_clash
check_clash-IsMigration f c (some n) s q p =
    if_intro (λ x. Out s (migrate_error x, s)) f.lstat_primary _ _ (λ _. refl) (λ _. refl)
check_clash-IsMigration f c none s q p =
    if_intro (Out s) f.lstat_primary _ _ (λ _. move_free-IsMigration f c s q p) (λ _. refl)

migrate_file-IsMigration :
    (f : Calls) (c : Content) (s : Store) → s.config ≡ some (file c) → Out s (migrate_file f c s)
unfolding migrate_file
migrate_file-IsMigration f c s q =
    if_intro (Out s) f.mkdir _ _
      (λ _. check_clash-IsMigration f c (s.profiles primary_name) s q refl) (λ _. refl)

migrate_node-IsMigration :
    (f : Calls) (found : Option Node) (s : Store)
    → s.config ≡ found
    → Out s (migrate_node f found s)
unfolding migrate_node
migrate_node-IsMigration f none s q = refl
migrate_node-IsMigration f (some (link t)) s q = refl
migrate_node-IsMigration f (some other) s q = refl
migrate_node-IsMigration f (some (file c)) s q = migrate_file-IsMigration f c s q

would_migrate-IsMigration : (found : Option Node) (s : Store) → Out s (would_migrate found, s)
unfolding would_migrate
would_migrate-IsMigration none s = refl
would_migrate-IsMigration (some (link t)) s = refl
would_migrate-IsMigration (some other) s = refl
would_migrate-IsMigration (some (file c)) s = refl

-- With or without --no-migrate, and whatever calls fail: a reply that reports no migration, or any
-- error but that of the last step, leaves the store as it was. A migration moves the content of
-- the regular file to the profile primary, which did not exist, leaves every other profile, and
-- makes primary the active profile; a second migration then has nothing to do. When the link
-- fails, the content is in the profile primary all the same.
pub ensure_migrated-IsMigration :
    (allow : Bool) (f : Calls) (s : Store)
    → let out = ensure_migrated allow f s in IsMigration out.0 s out.1
unfolding ensure_migrated migrate_legacy
ensure_migrated-IsMigration true f s =
    if_intro (Out s) f.lstat_config _ _ (λ _. migrate_node-IsMigration f s.config s refl)
      (λ _. refl)
ensure_migrated-IsMigration false f s =
    if_intro (Out s) f.lstat_config _ _ (λ _. would_migrate-IsMigration s.config s) (λ _. refl)
