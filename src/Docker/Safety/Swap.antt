-- ===== src/Docker/Safety/Swap.antt =====
-- `proxyRecreate` where there is a proxy.
use workspace_cli.Docker.Client.{
  Engine, Inspect, Names, Reply, absent, backup, broken, done, failed, held, not_found, primary,
  seen, stateless,
}
use workspace_cli.Docker.Create.{
  Fault, after_create, after_start, free_ip, proxy_create_and_start, proxy_create_preflight,
  unhealthy_new,
}
use workspace_cli.Docker.Documented.{
  Documented, Movable, Reports, create_held, lookup, remove_held, rename_held, names-IsQuiet,
  standing,
}
use workspace_cli.Docker.Health.{Verdict, bad, sound, verify_healthy, weak}
use workspace_cli.Docker.Quiet.{proxy_create_preflight-keeps, verify_healthy-keeps}
use workspace_cli.Docker.Recreate.{
  after_create_new, after_disconnect, after_inspect_backup, after_inspect_primary, after_preflight,
  after_remove_stale, after_rename_old, after_stop_old, after_verify, classified, commit,
  inspect_both, proxy_recreate, rename_step, swap, undo_rename, undo_stop, with_client,
}
use workspace_cli.Docker.Rollback.{
  Outcome, committed, created, critical, refused, restored_unhealthy, resumed, rollback_to_backup,
  rolled_back,
}
use workspace_cli.Docker.Routes.{Settings}
use workspace_cli.Docker.Safety.{Kept, RolledBack, Swapped}
use workspace_cli.Docker.Safety.Rollback.{
  Kept-backup, Kept-primary, rename-back, rollback_to_backup-RolledBack,
}
use workspace_cli.Prelude.{
  Bool, Option, ap, false, inl, inr, none, refl, some, subst, sym, true, ℕ, ◌∙◌, ◌≡◌, ◌≢◌,
}

RolledBack→Swapped :
    (e : Engine) (cfg : Settings) (i : ℕ) (o : Outcome) (w : e.World)
    → RolledBack i o (standing e i w)
    → Swapped e cfg i o w
RolledBack→Swapped e cfg i (rolled_back f) ns h = h
RolledBack→Swapped e cfg i (restored_unhealthy f) ns h = h
RolledBack→Swapped e cfg i (critical f g cs) ns h = h
RolledBack→Swapped e cfg i (committed b) ns h = absurd h
RolledBack→Swapped e cfg i (created b) ns h = absurd h
RolledBack→Swapped e cfg i resumed ns h = absurd h
RolledBack→Swapped e cfg i (refused f) ns h = absurd h

module _ (e : Engine) (d : Documented e) (cfg : Settings) (i : ℕ) where
  open e use {World, names}

  -- The container i has the backup's name.
  abbrev InBackup : Names → Type 0
  InBackup ns = (p : Option ℕ) × (ns ≡ held p (some i))

  create_held-InBackup : (j : ℕ) (p : Option ℕ) → InBackup (create_held j (held p (some i)))
  create_held-InBackup j none = (some j, refl)
  create_held-InBackup j (some k) = (some k, refl)

  create-InBackup : (w : World) → InBackup (names w) → InBackup (names (e.create w).1)
  create-InBackup w (p, q) = elim (d.create_held_or w) [
    | inl h ↦ (p, h ∙ q)
    | inr (j, h) ↦ subst InBackup (sym (h ∙ ap (create_held j) q)) (create_held-InBackup j p)
  ]

  after_start-InBackup :
      (r : Reply) (w : World) → InBackup (names w) → InBackup (names (after_start e cfg r w).1)
  unfolding after_start
  after_start-InBackup done w h = h
  after_start-InBackup not_found w h = h
  after_start-InBackup failed w h = h

  after_create-InBackup :
      (r : Reply) (w : World) → InBackup (names w) → InBackup (names (after_create e cfg r w).1)
  unfolding after_create
  after_create-InBackup done w (p, q) =
      after_start-InBackup (e.start primary w).0 _ (p, d.start_keeps primary w ∙ q)
  after_create-InBackup not_found w h = h
  after_create-InBackup failed w h = h

  proxy_create_and_start-InBackup :
      (w : World) → InBackup (names w) → InBackup (names (proxy_create_and_start e cfg w).1)
  unfolding proxy_create_and_start
  proxy_create_and_start-InBackup w h =
      after_create-InBackup (e.create w).0 (e.create w).1 (create-InBackup w h)

  abbrev Safe : Outcome × World → Type 0
  Safe r = Swapped e cfg i r.0 r.1

  rollback-Safe : (f : Fault) (w : World) → InBackup (names w) → Safe (rollback_to_backup e cfg f w)
  rollback-Safe f w (p, q) =
      RolledBack→Swapped e cfg i _ _ (rollback_to_backup-RolledBack e d cfg i f p w q)

  after_verify-Safe :
      (v : Verdict) (z u m : World) (j : ℕ)
      → names z ≡ held none (some i)
      → proxy_create_and_start e cfg z ≡ (none, u)
      → names u ≡ held (some j) (some i)
      → verify_healthy e cfg.health_timeout cfg.start_grace u ≡ (v, m)
      → Safe (after_verify e cfg v m)
  unfolding after_verify commit
  after_verify-Safe sound z u m j a c q h = (z, u, m, j, a, c, q, h, refl)
  after_verify-Safe weak z u m j a c q h = (z, u, m, j, a, c, q, h, refl)
  after_verify-Safe (bad x) z u m j a c q h = rollback-Safe (unhealthy_new x) m (
    some j,
    sym (ap (λ r. names r.1) h) ∙ verify_healthy-keeps e names (names-IsQuiet e d) _ _ u ∙ q,
  )

  -- A create that reports no fault has made a container.
  after_start-held :
      (j : ℕ) (r : Reply) (w u : World)
      → names w ≡ held (some j) (some i)
      → after_start e cfg r w ≡ (none, u)
      → names u ≡ held (some j) (some i)
  unfolding after_start
  after_start-held j done w u q h = sym (ap (λ x. names x.1) h) ∙ q
  after_start-held j not_found w u q h = let p = ap (λ x. x.0) h in absurd cc
  after_start-held j failed w u q h = let p = ap (λ x. x.0) h in absurd cc

  after_create-held :
      (r : Reply) (w u : World)
      → (r ≡ done → (j : ℕ) × (names w ≡ held (some j) (some i)))
      → after_create e cfg r w ≡ (none, u)
      → (j : ℕ) × (names u ≡ held (some j) (some i))
  unfolding after_create
  after_create-held done w u k h =
      let (j, q) = k refl in
      (j, after_start-held j (e.start primary w).0 _ u (d.start_keeps primary w ∙ q) h)
  after_create-held not_found w u k h = let p = ap (λ x. x.0) h in absurd cc
  after_create-held failed w u k h = let p = ap (λ x. x.0) h in absurd cc

  proxy_create_and_start-held :
      (z u : World)
      → names z ≡ held none (some i)
      → proxy_create_and_start e cfg z ≡ (none, u)
      → (j : ℕ) × (names u ≡ held (some j) (some i))
  unfolding proxy_create_and_start
  proxy_create_and_start-held z u q h =
      after_create-held (e.create z).0 (e.create z).1 u
        (λ r. let (j, p) = d.create_done z r in (j, p ∙ ap (create_held j) q)) h

  after_create_new-Safe :
      (o : Option Fault) (z u : World)
      → names z ≡ held none (some i)
      → proxy_create_and_start e cfg z ≡ (o, u)
      → Safe (after_create_new e cfg o u)
  unfolding after_create_new
  after_create_new-Safe (some f) z u q h = rollback-Safe f u (
      subst (λ (r : Option Fault × World). InBackup (names r.1)) h
        (proxy_create_and_start-InBackup z (none, q)))
  after_create_new-Safe none z u q h =
      let (j, p) = proxy_create_and_start-held z u q h in
      let v = verify_healthy e cfg.health_timeout cfg.start_grace u in
      after_verify-Safe v.0 z u v.1 j q h p refl

  undo_rename-Safe : (w : World) → names w ≡ held none (some i) → Safe (undo_rename e cfg w)
  unfolding undo_rename
  undo_rename-Safe w q =
      let s = d.start_keeps primary (e.rename backup primary w).1 in
      elim (rename-back e d cfg i free_ip w q) [
        | inl h ↦ Kept-backup i none _ (s ∙ h)
        | inr h ↦ Kept-primary i _ (s ∙ h)
      ]

  after_disconnect-Safe :
      (r : Reply) (w : World) → names w ≡ held none (some i) → Safe (after_disconnect e cfg r w)
  unfolding after_disconnect
  after_disconnect-Safe done w q =
      let c = proxy_create_and_start e cfg w in after_create_new-Safe c.0 w c.1 q refl
  after_disconnect-Safe not_found w q = undo_rename-Safe w q
  after_disconnect-Safe failed w q = undo_rename-Safe w q

  undo_stop-Safe : (w : World) → Kept i (names w) → Safe (undo_stop e cfg w)
  unfolding undo_stop
  undo_stop-Safe w h = subst (Kept i) (sym (d.start_keeps primary w)) h

  after_rename_old-Safe :
      (r : Reply) (w : World)
      → Kept i (names w)
      → (r ≡ done → names w ≡ held none (some i))
      → Safe (after_rename_old e cfg r w)
  unfolding after_rename_old
  after_rename_old-Safe done w k h =
      after_disconnect-Safe (e.disconnect backup w).0 _ (d.disconnect_keeps backup w ∙ h refl)
  after_rename_old-Safe not_found w k h = undo_stop-Safe w k
  after_rename_old-Safe failed w k h = undo_stop-Safe w k

  -- Whatever the rename does, the container keeps a name.
  rename_held-Kept : (b : Option ℕ) → Kept i (rename_held primary backup (held (some i) b))
  rename_held-Kept none = inr refl
  rename_held-Kept (some j) = inl refl

  Movable→free :
      (b : Option ℕ)
      → Movable primary backup (held (some i) b)
      → rename_held primary backup (held (some i) b) ≡ held none (some i)
  Movable→free none m = refl
  Movable→free (some j) m = absurd m

  rename_step-Safe :
      (b : Option ℕ) (w : World) → names w ≡ held (some i) b → Safe (rename_step e cfg w)
  unfolding rename_step
  rename_step-Safe b w q =
      after_rename_old-Safe (e.rename primary backup w).0 (e.rename primary backup w).1
        (elim (d.rename_held_or primary backup w) [
          | inl h ↦ subst (Kept i) (sym (h ∙ q)) (inl refl)
          | inr h ↦
              subst (Kept i) (sym (h ∙ ap (rename_held primary backup) q)) (rename_held-Kept b)
        ])
        λ h.
          let (m, p) = d.rename_done primary backup w h in
          p
          ∙ ap (rename_held primary backup) q
          ∙ Movable→free b (subst (Movable primary backup) q m)

  after_stop_old-Safe :
      (b : Option ℕ) (r : Reply) (w : World)
      → names w ≡ held (some i) b
      → Safe (after_stop_old e cfg r w)
  unfolding after_stop_old
  after_stop_old-Safe b done w q = rename_step-Safe b w q
  after_stop_old-Safe b not_found w q = rename_step-Safe b w q
  after_stop_old-Safe b failed w q = inl (ap (lookup primary) q)

  after_preflight-Safe :
      (b : Option ℕ) (o : Option Fault) (w : World)
      → names w ≡ held (some i) b
      → Safe (after_preflight e cfg o w)
  unfolding after_preflight
  after_preflight-Safe b (some f) w q = inl (ap (lookup primary) q)
  after_preflight-Safe b none w q =
      after_stop_old-Safe b (e.stop primary w).0 _ (d.stop_keeps primary w ∙ q)

  swap-Safe : (b : Option ℕ) (w : World) → names w ≡ held (some i) b → Safe (swap e cfg w)
  unfolding swap
  swap-Safe b w q =
      after_preflight-Safe b (proxy_create_preflight e cfg w).0 _
        (proxy_create_preflight-keeps e names (names-IsQuiet e d) cfg w ∙ q)

  after_remove_stale-Safe :
      (b : Option ℕ) (r : Reply) (w : World)
      → names w ≡ held (some i) b
      → Safe (after_remove_stale e cfg r w)
  unfolding after_remove_stale
  after_remove_stale-Safe b failed w q = inl (ap (lookup primary) q)
  after_remove_stale-Safe b done w q = swap-Safe b w q
  after_remove_stale-Safe b not_found w q = swap-Safe b w q

  classified-Safe :
      (there : Bool) (b : Option ℕ) (w : World)
      → names w ≡ held (some i) b
      → Safe (classified e cfg true there w)
  unfolding classified
  classified-Safe false b w q = swap-Safe b w q
  classified-Safe true b w q = elim (d.remove_held_or backup w) [
    | inl h ↦ after_remove_stale-Safe b (e.remove backup w).0 _ (h ∙ q)
    | inr h ↦ after_remove_stale-Safe none (e.remove backup w).0 _ (h ∙ ap (remove_held backup) q)
  ]

  after_inspect_backup-Safe :
      (b : Option ℕ) (r : Inspect) (w : World)
      → names w ≡ held (some i) b
      → Safe (after_inspect_backup e cfg true r w)
  unfolding after_inspect_backup
  after_inspect_backup-Safe b absent w q = classified-Safe false b w q
  after_inspect_backup-Safe b (broken l) w q = inl (ap (lookup primary) q)
  after_inspect_backup-Safe b stateless w q = classified-Safe true b w q
  after_inspect_backup-Safe b (seen s) w q = classified-Safe true b w q

  inspect_both-Safe :
      (b : Option ℕ) (w : World) → names w ≡ held (some i) b → Safe (inspect_both e cfg true w)
  unfolding inspect_both
  inspect_both-Safe b w q =
      after_inspect_backup-Safe b (e.inspect backup w).0 _
        ((names-IsQuiet e d).inspect_keeps backup w ∙ q)

  after_inspect_primary-Safe :
      (b : Option ℕ) (r : Inspect) (w : World)
      → names w ≡ held (some i) b
      → r ≢ absent
      → Safe (after_inspect_primary e cfg r w)
  unfolding after_inspect_primary
  after_inspect_primary-Safe b absent w q n = absurd (n refl)
  after_inspect_primary-Safe b (broken l) w q n = inl (ap (lookup primary) q)
  after_inspect_primary-Safe b stateless w q n = inspect_both-Safe b w q
  after_inspect_primary-Safe b (seen s) w q n = inspect_both-Safe b w q

  not-absent :
      (b : Option ℕ) (ns : Names) → ns ≡ held (some i) b → Reports absent (lookup primary ns) → ⊥
  not-absent b ns q h = let p : some i ≡ none = sym (ap (lookup primary) q) ∙ h in cc

  with_client-Safe :
      (b : Option ℕ) (ok : Bool) (w : World)
      → names w ≡ held (some i) b
      → Safe (with_client e cfg ok w)
  unfolding with_client
  with_client-Safe b false w q = inl (ap (lookup primary) q)
  with_client-Safe b true w q =
      after_inspect_primary-Safe b (e.inspect primary w).0 _
        ((names-IsQuiet e d).inspect_keeps primary w ∙ q)
        λ h.
          not-absent b (names w) q
            (subst (λ r. Reports r (lookup primary (names w))) h (d.inspect_reports primary w))

  -- A recreate that starts with the proxy i, with or without a stale backup, ends in one of these
  -- ways, whatever calls fail. It is committed: then, with i put aside as the backup, a new container
  -- was made and started under the proxy's name, the health check of the run then found it healthy, or
  -- running with no health check (the reply says which), and the commit is all that followed. Or i is
  -- the proxy again, connected and started, and there is no backup. Or the error is CRITICAL, i is
  -- still there, and the listed commands, when they work, make it so. Or it is refused, and i is still
  -- there.
  pub proxy_recreate-Swapped :
      (b : Option ℕ) (w : World)
      → names w ≡ held (some i) b
      → Swapped e cfg i (proxy_recreate e cfg w).0 (proxy_recreate e cfg w).1
  unfolding proxy_recreate
  proxy_recreate-Swapped b w q =
      with_client-Safe b (e.new_client w).0 _ ((names-IsQuiet e d).client_keeps w ∙ q)
