-- ===== src/Docker/Safety/Resume.antt =====
-- `proxyRecreate` behind an interrupted recreate, where there is a backup and no proxy.
use workspace_cli.Docker.Client.{
  Engine, Inspect, Names, Reply, absent, backup, broken, done, failed, held, not_found, primary,
  seen, stateless,
}
use workspace_cli.Docker.Create.{restore_rename}
use workspace_cli.Docker.Documented.{Documented, Reports, lookup, names-IsQuiet, standing}
use workspace_cli.Docker.Recreate.{
  after_inspect_backup, after_inspect_primary, after_resume_connect, after_resume_rename,
  after_resume_start, classified, inspect_both, proxy_recreate, with_client,
}
use workspace_cli.Docker.Rollback.{Outcome}
use workspace_cli.Docker.Routes.{Settings}
use workspace_cli.Docker.Safety.{Resumed, back}
use workspace_cli.Docker.Safety.Rollback.{rename-back, renamed}
use workspace_cli.Prelude.{
  Bool, ap, false, inl, inr, none, refl, some, subst, sym, true, ℕ, ◌∙◌, ◌≡◌, ◌≢◌, ◌⊎◌,
}

module _ (e : Engine) (d : Documented e) (cfg : Settings) (i : ℕ) where
  open e use {World, names}

  abbrev Safe : Outcome × World → Type 0
  Safe r = Resumed i r.0 (standing e i r.1)

  after_resume_rename-Safe :
      (r : Reply) (w : World)
      → (names w ≡ held none (some i)) ⊎ (names w ≡ held (some i) none)
      → (r ≡ done → standing e i w ≡ back i)
      → Safe (after_resume_rename e cfg r w)
  unfolding after_resume_rename
  after_resume_rename-Safe done w k h = h refl
  after_resume_rename-Safe not_found w k h = k
  after_resume_rename-Safe failed w k h = k

  after_resume_start-Safe :
      (r : Reply) (w : World)
      → names w ≡ held none (some i)
      → e.attached w i ≡ true
      → (r ≡ done → e.started w i ≡ true)
      → Safe (after_resume_start e cfg r w)
  unfolding after_resume_start
  after_resume_start-Safe done w q a s =
      after_resume_rename-Safe (e.rename backup primary w).0 (e.rename backup primary w).1
        (rename-back e d cfg i restore_rename w q) (renamed e d cfg i restore_rename w q a (s refl))
  after_resume_start-Safe not_found w q a s = inl q
  after_resume_start-Safe failed w q a s = inl q

  after_resume_connect-Safe :
      (r : Reply) (w : World)
      → names w ≡ held none (some i)
      → (r ≡ done → e.attached w i ≡ true)
      → Safe (after_resume_connect e cfg r w)
  unfolding after_resume_connect
  after_resume_connect-Safe done w q a =
      after_resume_start-Safe (e.start backup w).0 _ (d.start_keeps backup w ∙ q)
        (d.start_attached backup w i ∙ a refl) (d.start_done backup w i (ap (lookup backup) q))
  after_resume_connect-Safe not_found w q a = inl q
  after_resume_connect-Safe failed w q a = inl q

  resume-Safe :
      (w : World)
      → names w ≡ held none (some i)
      → Safe (after_resume_connect e cfg (e.connect backup w).0 (e.connect backup w).1)
  resume-Safe w q =
      after_resume_connect-Safe (e.connect backup w).0 _ (d.connect_keeps backup w ∙ q)
        (d.connect_done backup w i (ap (lookup backup) q))

  after_inspect_backup-Safe :
      (r : Inspect) (w : World)
      → names w ≡ held none (some i)
      → r ≢ absent
      → Safe (after_inspect_backup e cfg false r w)
  unfolding after_inspect_backup classified
  after_inspect_backup-Safe absent w q n = absurd (n refl)
  after_inspect_backup-Safe (broken l) w q n = inl q
  after_inspect_backup-Safe stateless w q n = resume-Safe w q
  after_inspect_backup-Safe (seen s) w q n = resume-Safe w q

  not-absent : (ns : Names) → ns ≡ held none (some i) → Reports absent (lookup backup ns) → ⊥
  not-absent ns q h = let p : some i ≡ none = sym (ap (lookup backup) q) ∙ h in cc

  inspect_both-Safe : (w : World) → names w ≡ held none (some i) → Safe (inspect_both e cfg false w)
  unfolding inspect_both
  inspect_both-Safe w q =
      after_inspect_backup-Safe (e.inspect backup w).0 _
        ((names-IsQuiet e d).inspect_keeps backup w ∙ q)
        λ h.
          not-absent (names w) q
            (subst (λ r. Reports r (lookup backup (names w))) h (d.inspect_reports backup w))

  -- No inspect finds a container that is not there.
  not-seen :
      (r : Inspect) (ns : Names)
      → ns ≡ held none (some i)
      → Reports r (lookup primary ns)
      → (r ≡ absent) ⊎ ((l : Bool) × (r ≡ broken l))
  not-seen absent ns q h = inl refl
  not-seen (broken l) ns q h = inr (l, refl)
  not-seen stateless ns q (j, h) =
      let p : none ≡ some j = sym (ap (lookup primary) q) ∙ h in absurd cc
  not-seen (seen s) ns q (j, h) =
      let p : none ≡ some j = sym (ap (lookup primary) q) ∙ h in absurd cc

  after_inspect_primary-Safe :
      (r : Inspect) (w : World)
      → names w ≡ held none (some i)
      → (r ≡ absent) ⊎ ((l : Bool) × (r ≡ broken l))
      → Safe (after_inspect_primary e cfg r w)
  unfolding after_inspect_primary
  after_inspect_primary-Safe absent w q n = inspect_both-Safe w q
  after_inspect_primary-Safe (broken l) w q n = inl q
  after_inspect_primary-Safe stateless w q (inl p) = absurd cc
  after_inspect_primary-Safe stateless w q (inr (l, p)) = absurd cc
  after_inspect_primary-Safe (seen s) w q (inl p) = absurd cc
  after_inspect_primary-Safe (seen s) w q (inr (l, p)) = absurd cc

  with_client-Safe :
      (ok : Bool) (w : World) → names w ≡ held none (some i) → Safe (with_client e cfg ok w)
  unfolding with_client
  with_client-Safe false w q = inl q
  with_client-Safe true w q =
      after_inspect_primary-Safe (e.inspect primary w).0 _
        ((names-IsQuiet e d).inspect_keeps primary w ∙ q)
        (not-seen (e.inspect primary w).0 (names w) q (d.inspect_reports primary w))

  -- A recreate that finds no proxy but the backup i of an interrupted one either makes i the proxy
  -- again, connected to the proxy network and started, with no backup, or is refused. Then i is the
  -- only container under the two names. It never reports a commit, a creation or a rollback.
  pub proxy_recreate-Resumed :
      (w : World)
      → names w ≡ held none (some i)
      → Resumed i (proxy_recreate e cfg w).0 (standing e i (proxy_recreate e cfg w).1)
  unfolding proxy_recreate
  proxy_recreate-Resumed w q =
      with_client-Safe (e.new_client w).0 _ ((names-IsQuiet e d).client_keeps w ∙ q)
