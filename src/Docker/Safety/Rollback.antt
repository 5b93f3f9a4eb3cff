-- ===== src/Docker/Safety/Rollback.antt =====
-- `rollbackToBackup`, step by step.
use workspace_cli.Docker.Client.{
  Engine, Names, Reply, backup, done, failed, held, not_found, primary,
}
use workspace_cli.Docker.Create.{Fault}
use workspace_cli.Docker.Documented.{Documented, lookup, rename_held, remove_held, standing}
use workspace_cli.Docker.Health.{Verdict, bad, sound, verify_healthy, weak}
use workspace_cli.Docker.Quiet.{fix_routes-keeps, verify_healthy-keeps}
use workspace_cli.Docker.Rollback.{
  after_rename_backup, critical_rollback, line_if, restore_name, restored_verdict, verify_restored,
  after_reconnect, after_remove_new, after_start_backup, rollback_to_backup, connect_backup,
  remove_primary, run_backup,
}
use workspace_cli.Docker.Routes.{Settings}
use workspace_cli.Docker.Safety.{Kept, RolledBack, recover, Standing, back, run_command, standing-≡}
use workspace_cli.Prelude.{
  Option, [], ap, false, inl, inr, none, refl, some, true, ℕ, ◌∙◌, ◌∷◌, ◌≡◌, ◌⊎◌, ◌≢◌,
}

pub Kept-primary : (i : ℕ) (ns : Names) → ns ≡ held (some i) none → Kept i ns
Kept-primary i ns q = inl (ap (lookup primary) q)

pub Kept-backup : (i : ℕ) (p : Option ℕ) (ns : Names) → ns ≡ held p (some i) → Kept i ns
Kept-backup i p ns q = inr (ap (lookup backup) q)

module _ (e : Engine) (d : Documented e) (cfg : Settings) (i : ℕ) (orig : Fault) where
  open e use {World, names}

  pub rename-back :
      (w : World)
      → names w ≡ held none (some i)
      → (names (e.rename backup primary w).1 ≡ held none (some i))
        ⊎ (names (e.rename backup primary w).1 ≡ held (some i) none)
  rename-back w q = elim (d.rename_held_or backup primary w) [
    | inl p ↦ inl (p ∙ q)
    | inr p ↦ inr (p ∙ ap (rename_held backup primary) q)
  ]

  restored_verdict-RolledBack :
      (st : Standing) (v : Verdict) → st ≡ back i → RolledBack i (restored_verdict e cfg orig v) st
  unfolding restored_verdict
  restored_verdict-RolledBack st sound p = p
  restored_verdict-RolledBack st weak p = p
  restored_verdict-RolledBack st (bad x) p = p

  verify_restored-RolledBack :
      (w : World)
      → standing e i w ≡ back i
      → RolledBack i
          (verify_restored e cfg orig w).0
          (standing e i (verify_restored e cfg orig w).1)
  unfolding verify_restored
  verify_restored-RolledBack w q =
      let v = verify_healthy e cfg.health_timeout cfg.start_grace w in
      restored_verdict-RolledBack _ v.0 (
        fix_routes-keeps e (standing e i) (d.quiet i) cfg v.1
        ∙ verify_healthy-keeps e (standing e i) (d.quiet i) _ _ w
        ∙ q)

  -- The backup is as the commands left it, and only the rename is missing: it failed, and may have
  -- taken effect.
  restore-name :
      (st : Standing)
      → (st ≡ (held none (some i), true, true)) ⊎ (st ≡ back i)
      → Kept i st.0 × (recover (restore_name ∷ []) st ≡ back i)
  restore-name st (inl q) =
      (Kept-backup i none st.0 (ap (λ s. s.0) q), ap (run_command restore_name) q)
  restore-name st (inr q) = (Kept-primary i st.0 (ap (λ s. s.0) q), ap (run_command restore_name) q)

  after_rename_backup-RolledBack :
      (r : Reply) (w : World)
      → (r ≡ done → standing e i w ≡ back i)
      → (standing e i w ≡ (held none (some i), true, true)) ⊎ (standing e i w ≡ back i)
      → let out =
          after_rename_backup e cfg orig
            (record {
              new_exists = false;
              backup_connected = true;
              backup_running = true;
              backup_renamed = false;
            })
            r
            w in
        RolledBack i out.0 (standing e i out.1)
  unfolding after_rename_backup critical_rollback line_if
  after_rename_backup-RolledBack done w h c = verify_restored-RolledBack w (h refl)
  after_rename_backup-RolledBack not_found w h c = restore-name (standing e i w) c
  after_rename_backup-RolledBack failed w h c = restore-name (standing e i w) c

  -- The start of the backup failed, or the connect did, and the commands make up for it.
  start-name :
      (w : World)
      → names w ≡ held none (some i)
      → e.attached w i ≡ true
      → Kept i (names w) × (recover (run_backup ∷ restore_name ∷ []) (standing e i w) ≡ back i)
  start-name w q a = (
    Kept-backup i none _ q,
    ap (recover (run_backup ∷ restore_name ∷ []))
        (standing-≡ e i w (held none (some i)) true (e.started w i) q a refl),
  )

  connect-name :
      (w : World)
      → names w ≡ held none (some i)
      → Kept i (names w)
        × (recover (connect_backup ∷ run_backup ∷ restore_name ∷ []) (standing e i w) ≡ back i)
  connect-name w q = (
    Kept-backup i none _ q,
    ap (recover (connect_backup ∷ run_backup ∷ restore_name ∷ []))
        (standing-≡ e i w (held none (some i)) (e.attached w i) (e.started w i) q refl refl),
  )

  pub renamed :
      (w : World)
      → names w ≡ held none (some i)
      → e.attached w i ≡ true
      → e.started w i ≡ true
      → (e.rename backup primary w).0 ≡ done
      → standing e i (e.rename backup primary w).1 ≡ back i
  renamed w q a s h =
      standing-≡ e i (e.rename backup primary w).1 _ _ _
        ((d.rename_done backup primary w h).1 ∙ ap (rename_held backup primary) q)
        (d.rename_attached backup primary w i ∙ a) (d.rename_started backup primary w i ∙ s)

  rename-standing :
      (w : World)
      → names w ≡ held none (some i)
      → e.attached w i ≡ true
      → e.started w i ≡ true
      → (standing e i (e.rename backup primary w).1 ≡ (held none (some i), true, true))
        ⊎ (standing e i (e.rename backup primary w).1 ≡ back i)
  rename-standing w q a s =
      let a' = d.rename_attached backup primary w i ∙ a in
      let s' = d.rename_started backup primary w i ∙ s in
      elim (rename-back w q) [
        | inl h ↦ inl (standing-≡ e i (e.rename backup primary w).1 _ _ _ h a' s')
        | inr h ↦ inr (standing-≡ e i (e.rename backup primary w).1 _ _ _ h a' s')
      ]

  -- The backup still has its own name: every command from here to the rename is listed.
  after_start_backup-RolledBack :
      (r : Reply) (w : World)
      → names w ≡ held none (some i)
      → e.attached w i ≡ true
      → (r ≡ done → e.started w i ≡ true)
      → let out =
          after_start_backup e cfg orig
            (record {
              new_exists = false;
              backup_connected = true;
              backup_running = false;
              backup_renamed = false;
            })
            r
            w in
        RolledBack i out.0 (standing e i out.1)
  unfolding after_start_backup critical_rollback line_if
  after_start_backup-RolledBack done w q a s =
      after_rename_backup-RolledBack (e.rename backup primary w).0 (e.rename backup primary w).1
        (renamed w q a (s refl)) (rename-standing w q a (s refl))
  after_start_backup-RolledBack not_found w q a s = start-name w q a
  after_start_backup-RolledBack failed w q a s = start-name w q a

  after_reconnect-RolledBack :
      (r : Reply) (w : World)
      → names w ≡ held none (some i)
      → (r ≡ done → e.attached w i ≡ true)
      → let out =
          after_reconnect e cfg orig
            (record {
              new_exists = false;
              backup_connected = false;
              backup_running = false;
              backup_renamed = false;
            })
            r
            w in
        RolledBack i out.0 (standing e i out.1)
  unfolding after_reconnect critical_rollback line_if
  after_reconnect-RolledBack done w q a =
      after_start_backup-RolledBack (e.start backup w).0 (e.start backup w).1
        (d.start_keeps backup w ∙ q) (d.start_attached backup w i ∙ a refl)
        (d.start_done backup w i (ap (lookup backup) q))
  after_reconnect-RolledBack not_found w q a = connect-name w q
  after_reconnect-RolledBack failed w q a = connect-name w q

  after_remove_new-RolledBack :
      (p : Option ℕ) (r : Reply) (w : World)
      → names w ≡ held p (some i)
      → (r ≢ failed → names w ≡ held none (some i))
      → let out =
          after_remove_new e cfg orig
            (record {
              new_exists = true;
              backup_connected = false;
              backup_running = false;
              backup_renamed = false;
            })
            r
            w in
        RolledBack i out.0 (standing e i out.1)
  unfolding after_remove_new critical_rollback line_if
  after_remove_new-RolledBack p failed w q h = (
    Kept-backup i p (names w) q,
    ap (recover (remove_primary ∷ connect_backup ∷ run_backup ∷ restore_name ∷ []))
        (standing-≡ e i w (held p (some i)) (e.attached w i) (e.started w i) q refl refl),
  )
  after_remove_new-RolledBack p done w q h =
      let q' = h (λ x. cc) in
      after_reconnect-RolledBack (e.connect backup w).0 (e.connect backup w).1
        (d.connect_keeps backup w ∙ q') (d.connect_done backup w i (ap (lookup backup) q'))
  after_remove_new-RolledBack p not_found w q h =
      let q' = h (λ x. cc) in
      after_reconnect-RolledBack (e.connect backup w).0 (e.connect backup w).1
        (d.connect_keeps backup w ∙ q') (d.connect_done backup w i (ap (lookup backup) q'))

  remove-primary :
      (p : Option ℕ) (w : World)
      → names w ≡ held p (some i)
      → (o : Option ℕ) × (names (e.remove primary w).1 ≡ held o (some i))
  remove-primary p w q = elim (d.remove_held_or primary w) [
    | inl h ↦ (p, h ∙ q)
    | inr h ↦ (none, h ∙ ap (remove_held primary) q)
  ]

  -- From any point at which the old container has the backup's name, the rollback ends with that
  -- container under the proxy's name, connected to the proxy network and started, and with no backup;
  -- or with a CRITICAL error. Then the container is still there, and the commands that the error lists,
  -- when they work, put it under the proxy's name, connected and started, with no backup.
  pub rollback_to_backup-RolledBack :
      (p : Option ℕ) (w : World)
      → names w ≡ held p (some i)
      → let out = rollback_to_backup e cfg orig w in RolledBack i out.0 (standing e i out.1)
  unfolding rollback_to_backup
  rollback_to_backup-RolledBack p w q =
      let q' = d.stop_keeps primary w ∙ q in
      let (o, h) = remove-primary p (e.stop primary w).1 q' in
      after_remove_new-RolledBack o (e.remove primary (e.stop primary w).1).0 _ h
        (λ n. d.remove_done primary _ n ∙ ap (remove_held primary) q')
