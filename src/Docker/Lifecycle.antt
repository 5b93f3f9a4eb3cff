-- ===== src/Docker/Lifecycle.antt =====
-- `ProxyUp`, `ProxyDown` and `ProxyRestart` of internal/docker/docker.go. Warnings are not
-- modelled.
pub mod Restarted
use workspace_cli.Docker.Client.{
  Engine, Inspect, Reply, absent, broken, done, failed, not_found, primary, seen, stateless,
}
use workspace_cli.Docker.Create.{Fault, proxy_create_and_start, proxy_create_preflight}
use workspace_cli.Docker.Health.{HealthError, Verdict, bad, sound, verify_healthy, weak}
use workspace_cli.Docker.Routes.{FixRoutesReport, Settings, fix_routes}
use workspace_cli.Prelude.{Bool, Option, false, none, some, true}

-- `panicked`: the inspect's reply has no state, and the code reads its Running.
pub data UpReply : Type 0 where
  up_ok up_no_client start_failed routes_failed panicked : UpReply
  create_fault : Fault → UpReply

pub data DownReply : Type 0 where
  down_ok down_no_client stop_failed : DownReply

pub data RestartReply : Type 0 where
  -- the flag is `weak`
  restarted : Bool → RestartReply
  restart_aborted : DownReply → RestartReply
  restart_down : UpReply → RestartReply
  restart_no_client : RestartReply
  restart_unhealthy : HealthError → RestartReply

module _ (e : Engine) (cfg : Settings) where
  open e use {World}

  unfoldable pub routes_reply : Option FixRoutesReport → UpReply
  routes_reply none = routes_failed
  routes_reply (some rep) = up_ok

  -- A partial failure is warned of, not returned.
  unfoldable pub up_routes : World → UpReply × World
  unfolding routes_reply
  up_routes w = let (rep, w') = fix_routes e cfg w in (routes_reply rep, w')

  unfoldable pub up_started : Reply → World → UpReply × World
  unfolding up_routes
  up_started done w = up_routes w
  up_started not_found w = (start_failed, w)
  up_started failed w = (start_failed, w)

  unfoldable pub up_seen : Bool → World → UpReply × World
  unfolding up_started
  up_seen true w = up_routes w
  up_seen false w = let (reply, w') = e.start primary w in up_started reply w'

  unfoldable pub up_created : Option Fault → World → UpReply × World
  unfolding up_routes
  up_created (some fault) w = (create_fault fault, w)
  up_created none w = up_routes w

  unfoldable pub up_preflight : Option Fault → World → UpReply × World
  unfolding up_created
  up_preflight (some fault) w = (create_fault fault, w)
  up_preflight none w = let (fault, w') = proxy_create_and_start e cfg w in up_created fault w'

  unfoldable pub up_create : World → UpReply × World
  unfolding up_preflight
  up_create w = let (fault, w') = proxy_create_preflight e cfg w in up_preflight fault w'

  -- Any error of the inspect is taken for an absent container.
  unfoldable pub up_inspected : Inspect → World → UpReply × World
  unfolding up_seen up_create
  up_inspected (seen s) w = up_seen s.running w
  up_inspected stateless w = (panicked, w)
  up_inspected absent w = up_create w
  up_inspected (broken late) w = up_create w

  unfoldable pub up_with : Bool → World → UpReply × World
  unfolding up_inspected
  up_with false w = (up_no_client, w)
  up_with true w = let (reply, w') = e.inspect primary w in up_inspected reply w'

  unfoldable pub proxy_up : World → UpReply × World
  unfolding up_with
  proxy_up w = let (ok, w') = e.new_client w in up_with ok w'

  unfoldable pub down_reply : Reply → DownReply
  down_reply done = down_ok
  down_reply not_found = down_ok
  down_reply failed = stop_failed

  unfoldable pub down_with : Bool → World → DownReply × World
  unfolding down_reply
  down_with false w = (down_no_client, w)
  down_with true w = let (reply, w') = e.stop primary w in (down_reply reply, w')

  unfoldable pub proxy_down : World → DownReply × World
  unfolding down_with
  proxy_down w = let (ok, w') = e.new_client w in down_with ok w'

  unfoldable pub restart_verdict : Verdict → RestartReply
  restart_verdict sound = restarted false
  restart_verdict weak = restarted true
  restart_verdict (bad x) = restart_unhealthy x

  unfoldable pub restart_verify : Bool → World → RestartReply × World
  unfolding restart_verdict
  restart_verify false w = (restart_no_client, w)
  restart_verify true w =
      let (v, w') = verify_healthy e cfg.health_timeout cfg.start_grace w in (restart_verdict v, w')

  unfoldable pub restart_up : UpReply → World → RestartReply × World
  unfolding restart_verify
  restart_up up_ok w = let (ok, w') = e.new_client w in restart_verify ok w'
  restart_up up_no_client w = (restart_down up_no_client, w)
  restart_up start_failed w = (restart_down start_failed, w)
  restart_up routes_failed w = (restart_down routes_failed, w)
  restart_up panicked w = (restart_down panicked, w)
  restart_up (create_fault fault) w = (restart_down (create_fault fault), w)

  unfoldable pub restart_stopped : DownReply → World → RestartReply × World
  unfolding restart_up
  restart_stopped down_ok w = let (reply, w') = proxy_up w in restart_up reply w'
  restart_stopped down_no_client w = (restart_aborted down_no_client, w)
  restart_stopped stop_failed w = (restart_aborted stop_failed, w)

  unfoldable pub proxy_restart : World → RestartReply × World
  unfolding restart_stopped
  proxy_restart w = let (reply, w') = proxy_down w in restart_stopped reply w'
