-- ===== src/Docker/Rollback.antt =====
-- `rollbackToBackup` and `criticalRollback` of internal/docker/recreate_tx.go. What follows a call
-- is a function of the call's reply.
-- The commands that a CRITICAL error lists.
use workspace_cli.Docker.Client.{Engine, Reply, backup, done, failed, not_found, primary}
use workspace_cli.Docker.Create.{Fault, reconnect, remove_new, rename_backup, start_backup}
use workspace_cli.Docker.Health.{Verdict, bad, sound, verify_healthy, weak}
use workspace_cli.Docker.Routes.{Settings, fix_routes}
use workspace_cli.Prelude.{Bool, List, [], false, not, true, ◌∷◌}

pub data Command : Type 0 where
  remove_primary connect_backup run_backup restore_name : Command

pub data Outcome : Type 0 where
  -- COMMIT; the flag is `weak`, a proxy with no health check
  committed : Bool → Outcome
  -- the cold create
  created : Bool → Outcome
  -- an interrupted recreate resumed: the backup is the proxy again
  resumed : Outcome
  -- an error with no rollback, or one undone on the spot
  refused : Fault → Outcome
  rolled_back : Fault → Outcome
  -- rolled back, and the restored proxy is unhealthy too
  restored_unhealthy : Fault → Outcome
  -- the original failure, the rollback's, and the commands that remain
  critical : Fault → Fault → List Command → Outcome

pub record RollbackState : Type 0 where
  pub new_exists : Bool
  pub backup_connected : Bool
  pub backup_running : Bool
  pub backup_renamed : Bool

-- One line of the recovery text: written when the flag is set.
unfoldable pub line_if : Bool → Command → List Command → List Command
line_if true c cs = c ∷ cs
line_if false c cs = cs

unfoldable pub critical_rollback : RollbackState → Fault → Fault → Outcome
unfolding line_if
critical_rollback st orig fault = critical orig fault (
    line_if st.new_exists remove_primary (
      line_if (not st.backup_connected) connect_backup (
        line_if (not st.backup_running) run_backup
          (line_if (not st.backup_renamed) restore_name []))))

module _ (e : Engine) (cfg : Settings) where
  open e use {World}
  open cfg use {health_timeout, start_grace}

  unfoldable pub restored_verdict : Fault → Verdict → Outcome
  restored_verdict orig sound = rolled_back orig
  restored_verdict orig weak = rolled_back orig
  restored_verdict orig (bad x) = restored_unhealthy orig

  -- Step 6 of the rollback.
  unfoldable pub verify_restored : Fault → World → Outcome × World
  verify_restored orig w =
      let (v, w') = verify_healthy e health_timeout start_grace w in
      let (rep, w'') = fix_routes e cfg w' in (restored_verdict orig v, w'')

  unfoldable pub after_rename_backup : Fault → RollbackState → Reply → World → Outcome × World
  after_rename_backup orig st done w = verify_restored orig w
  after_rename_backup orig st not_found w = (critical_rollback st orig rename_backup, w)
  after_rename_backup orig st failed w = (critical_rollback st orig rename_backup, w)

  unfoldable pub after_start_backup : Fault → RollbackState → Reply → World → Outcome × World
  after_start_backup orig st done w =
      let (reply, w') = e.rename backup primary w in
      after_rename_backup orig (record st { backup_running = true }) reply w'
  after_start_backup orig st not_found w = (critical_rollback st orig start_backup, w)
  after_start_backup orig st failed w = (critical_rollback st orig start_backup, w)

  unfoldable pub after_reconnect : Fault → RollbackState → Reply → World → Outcome × World
  after_reconnect orig st done w =
      let (reply, w') = e.start backup w in
      after_start_backup orig (record st { backup_connected = true }) reply w'
  after_reconnect orig st not_found w = (critical_rollback st orig reconnect, w)
  after_reconnect orig st failed w = (critical_rollback st orig reconnect, w)

  -- A broken new proxy that is not there any more is removed.
  unfoldable pub after_remove_new : Fault → RollbackState → Reply → World → Outcome × World
  after_remove_new orig st failed w = (critical_rollback st orig remove_new, w)
  after_remove_new orig st done w =
      let (reply, w') = e.connect backup w in
      after_reconnect orig (record st { new_exists = false }) reply w'
  after_remove_new orig st not_found w =
      let (reply, w') = e.connect backup w in
      after_reconnect orig (record st { new_exists = false }) reply w'

  unfoldable pub rollback_to_backup : Fault → World → Outcome × World
  rollback_to_backup orig w =
      let (stopped, w') = e.stop primary w in
      let (reply, w'') = e.remove primary w' in
      after_remove_new orig
        (record {
          new_exists = true;
          backup_connected = false;
          backup_running = false;
          backup_renamed = false;
        })
        reply w''
