-- ===== src/Docker/Recreate.antt =====
-- `proxyRecreate`, `verifyNew` and `triageStaleBackup` of internal/docker/recreate_tx.go. A phase is
-- a function; what follows a call is a function of the call's reply. Warnings are not modelled.
use workspace_cli.Docker.Client.{
  Engine, Inspect, Reply, absent, backup, broken, done, failed, not_found, primary, seen, stateless,
}
use workspace_cli.Docker.Create.{
  Fault, free_ip, inspect_backup, inspect_primary, no_client, proxy_create_and_start,
  proxy_create_preflight, remove_stale, rename_old, restore_network, restore_rename, restore_start,
  stop_old, unhealthy_new,
}
use workspace_cli.Docker.Health.{Verdict, bad, sound, verify_healthy, weak}
use workspace_cli.Docker.Rollback.{
  Outcome, committed, created, refused, resumed, rollback_to_backup,
}
use workspace_cli.Docker.Routes.{Settings, fix_routes}
use workspace_cli.Prelude.{Bool, Option, false, none, some, true}

module _ (e : Engine) (cfg : Settings) where
  open e use {World}
  open cfg use {health_timeout, start_grace}

  -- COMMIT: best effort, so its replies are dropped.
  unfoldable pub commit : Bool → World → Outcome × World
  commit unchecked w =
      let (removed, w') = e.remove backup w in
      let (rep, w'') = fix_routes e cfg w' in (committed unchecked, w'')

  unfoldable pub after_verify : Verdict → World → Outcome × World
  after_verify sound w = commit false w
  after_verify weak w = commit true w
  after_verify (bad x) w = rollback_to_backup e cfg (unhealthy_new x) w

  unfoldable pub after_create_new : Option Fault → World → Outcome × World
  after_create_new (some fault) w = rollback_to_backup e cfg fault w
  after_create_new none w =
      let (v, w') = verify_healthy e health_timeout start_grace w in after_verify v w'

  -- The undo of a failed disconnect renames and starts, and drops both replies.
  unfoldable pub undo_rename : World → Outcome × World
  undo_rename w =
      let (renamed, w') = e.rename backup primary w in
      let (started, w'') = e.start primary w' in (refused free_ip, w'')

  unfoldable pub after_disconnect : Reply → World → Outcome × World
  after_disconnect done w =
      let (fault, w') = proxy_create_and_start e cfg w in after_create_new fault w'
  after_disconnect not_found w = undo_rename w
  after_disconnect failed w = undo_rename w

  unfoldable pub undo_stop : World → Outcome × World
  undo_stop w = let (started, w') = e.start primary w in (refused rename_old, w')

  unfoldable pub after_rename_old : Reply → World → Outcome × World
  after_rename_old done w = let (reply, w') = e.disconnect backup w in after_disconnect reply w'
  after_rename_old not_found w = undo_stop w
  after_rename_old failed w = undo_stop w

  unfoldable pub rename_step : World → Outcome × World
  rename_step w = let (reply, w') = e.rename primary backup w in after_rename_old reply w'

  unfoldable pub after_stop_old : Reply → World → Outcome × World
  after_stop_old done w = rename_step w
  after_stop_old not_found w = rename_step w
  after_stop_old failed w = (refused stop_old, w)

  -- BACKUP, once PREFLIGHT has passed.
  unfoldable pub after_preflight : Option Fault → World → Outcome × World
  after_preflight (some fault) w = (refused fault, w)
  after_preflight none w = let (reply, w') = e.stop primary w in after_stop_old reply w'

  -- The swap of a proxy that is there.
  unfoldable pub swap : World → Outcome × World
  swap w = let (fault, w') = proxy_create_preflight e cfg w in after_preflight fault w'

  unfoldable pub new_verdict : Verdict → Outcome
  new_verdict sound = created false
  new_verdict weak = created true
  new_verdict (bad x) = refused (unhealthy_new x)

  -- `verifyNew`
  unfoldable pub verify_new : Option Fault → World → Outcome × World
  verify_new (some fault) w = (refused fault, w)
  verify_new none w =
      let (v, w') = verify_healthy e health_timeout start_grace w in (new_verdict v, w')

  unfoldable pub cold_create : Option Fault → World → Outcome × World
  cold_create (some fault) w = (refused fault, w)
  cold_create none w = let (fault, w') = proxy_create_and_start e cfg w in verify_new fault w'

  -- Case A of `triageStaleBackup`, and the swap.
  unfoldable pub after_remove_stale : Reply → World → Outcome × World
  after_remove_stale failed w = (refused remove_stale, w)
  after_remove_stale done w = swap w
  after_remove_stale not_found w = swap w

  unfoldable pub after_resume_rename : Reply → World → Outcome × World
  after_resume_rename done w = (resumed, w)
  after_resume_rename not_found w = (refused restore_rename, w)
  after_resume_rename failed w = (refused restore_rename, w)

  unfoldable pub after_resume_start : Reply → World → Outcome × World
  after_resume_start done w =
      let (reply, w') = e.rename backup primary w in after_resume_rename reply w'
  after_resume_start not_found w = (refused restore_start, w)
  after_resume_start failed w = (refused restore_start, w)

  -- Case B of `triageStaleBackup`, behind the connect.
  unfoldable pub after_resume_connect : Reply → World → Outcome × World
  after_resume_connect done w = let (reply, w') = e.start backup w in after_resume_start reply w'
  after_resume_connect not_found w = (refused restore_network, w)
  after_resume_connect failed w = (refused restore_network, w)

  -- Whether there is a proxy, then whether there is a backup.
  unfoldable pub classified : Bool → Bool → World → Outcome × World
  classified true true w = let (reply, w') = e.remove backup w in after_remove_stale reply w'
  classified true false w = swap w
  classified false true w = let (reply, w') = e.connect backup w in after_resume_connect reply w'
  classified false false w =
      let (fault, w') = proxy_create_preflight e cfg w in cold_create fault w'

  unfoldable pub after_inspect_backup : Bool → Inspect → World → Outcome × World
  after_inspect_backup there absent w = classified there false w
  after_inspect_backup there (broken late) w = (refused inspect_backup, w)
  after_inspect_backup there stateless w = classified there true w
  after_inspect_backup there (seen s) w = classified there true w

  unfoldable pub inspect_both : Bool → World → Outcome × World
  inspect_both there w = let (reply, w') = e.inspect backup w in after_inspect_backup there reply w'

  unfoldable pub after_inspect_primary : Inspect → World → Outcome × World
  after_inspect_primary absent w = inspect_both false w
  after_inspect_primary (broken late) w = (refused inspect_primary, w)
  after_inspect_primary stateless w = inspect_both true w
  after_inspect_primary (seen s) w = inspect_both true w

  unfoldable pub with_client : Bool → World → Outcome × World
  with_client false w = (refused no_client, w)
  with_client true w = let (reply, w') = e.inspect primary w in after_inspect_primary reply w'

  unfoldable pub proxy_recreate : World → Outcome × World
  proxy_recreate w = let (ok, w') = e.new_client w in with_client ok w'
