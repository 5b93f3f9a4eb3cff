-- ===== src/Tests/Docker.antt =====
-- A small engine, and the theorems about internal/docker at runs on it.
-- The engine holds names, a clock, and whether the container at hand is connected and was started. The container 1 is healthy, all others are not; every call
-- that is possible is done.
use workspace_cli.Docker.Check.{proxy_check}
use workspace_cli.Docker.Check.Evidence.{Observed, proxy_check-Observed}
use workspace_cli.Docker.Client.{
  Endpoint, Engine, HealthStatus, Inspect, Name, Names, Reply, absent, backup, done, exists, failed,
  healthy, held, live, primary, seen, unhealthy,
}
use workspace_cli.Docker.Create.{
  check_address, start_new, unhealthy_new, after_create, after_create_network, after_image,
  after_start, after_stat, ensure_proxy_network, foreign_holder, held_by, proxy_create_and_start,
  proxy_create_preflight, address_of,
}
use workspace_cli.Docker.Create.Address.{Clear, check_address-Clear}
use workspace_cli.Docker.Documented.{
  Documented, Movable, Reports, create_held, lookup, remove_held, rename_held, standing,
}
use workspace_cli.Docker.Health.{
  Verdict, is_unhealthy, verify_healthy, verify_loop, or_timed_out, poll, poll_health, poll_next,
  poll_state,
}
use workspace_cli.Docker.Health.Termination.{HasClock, verify_healthy_ends}
use workspace_cli.Docker.Health.Verdicts.{Shown, verify_healthy-Shown}
use workspace_cli.Docker.Lifecycle.{proxy_restart}
use workspace_cli.Docker.Lifecycle.Restarted.{IsRestart, proxy_restart-IsRestart}
use workspace_cli.Docker.Recreate.{
  proxy_recreate, after_create_new, after_disconnect, after_inspect_backup, after_inspect_primary,
  after_preflight, after_rename_old, after_stop_old, after_verify, classified, inspect_both,
  rename_step, swap, with_client,
}
use workspace_cli.Docker.Rollback.{
  rollback_to_backup, rolled_back, after_reconnect, after_remove_new, after_rename_backup,
  after_start_backup, restored_verdict, verify_restored,
}
use workspace_cli.Docker.Routes.{Settings, fix_routes}
use workspace_cli.Docker.Routes.Report.{Accounts, fix_routes-Accounts}
use workspace_cli.Docker.Safety.{Resumed, RolledBack, Swapped}
use workspace_cli.Docker.Safety.Resume.{proxy_recreate-Resumed}
use workspace_cli.Docker.Safety.Rollback.{rollback_to_backup-RolledBack}
use workspace_cli.Docker.Safety.Swap.{proxy_recreate-Swapped}
use workspace_cli.Prelude.{
  All, List, Option, String, [], arith, if◌then◌else◌, inr, none, refl, some, str_eq, true, ℕ, ◌+◌,
  ◌==◌, ◌↔◌, ◌∷◌, ◌≡◌, Bool, false, text_eq,
}
use workspace_cli.Xrayconf.Values.{bytes}

abbrev pub ToyWorld : Type 0
ToyWorld = Names × ℕ × Bool × Bool

abbrev toy_health : ℕ → HealthStatus
toy_health i = if i == 1 then healthy else unhealthy

abbrev toy_report : Option ℕ → Inspect
toy_report none = absent
toy_report (some i) = seen (record { status = live; running = true; health = some (toy_health i) })

abbrev toy_rename_reply : Name → Name → Names → Reply
toy_rename_reply primary backup (held (some i) none) = done
toy_rename_reply backup primary (held none (some i)) = done
toy_rename_reply a b ns = failed

abbrev toy_create_reply : Names → Reply
toy_create_reply (held none b) = done
toy_create_reply (held (some i) b) = failed

abbrev toy_endpoints : List Endpoint
toy_endpoints =
    record { name = "ws-proxy"; ip = bytes "10.0.0.2/16" }
    ∷ record { name = "blog"; ip = bytes "10.0.0.3/16" }
    ∷ record { name = "shop"; ip = bytes "10.0.0.4/16" }
    ∷ []

abbrev toy_exec : String → Reply
toy_exec name = if str_eq name "shop" then failed else done

abbrev toy : Engine
toy = record {
  World = ToyWorld;
  names = λ w. w.0;
  attached = λ w i. w.2;
  started = λ w i. w.3;
  now = λ w. w.1;
  new_client = λ w. (true, w);
  ping = λ w. (true, w);
  inspect = λ n w. (toy_report (lookup n w.0), w);
  stop = λ n w. (done, (w.0, w.1, w.2, false));
  start = λ n w. (done, (w.0, w.1, w.2, true));
  remove = λ n w. (done, (remove_held n w.0, w.1, w.2, w.3));
  rename = λ a b w. (toy_rename_reply a b w.0, (rename_held a b w.0, w.1, w.2, w.3));
  connect = λ n w. (done, (w.0, w.1, true, w.3));
  disconnect = λ n w. (done, (w.0, w.1, false, w.3));
  create = λ w. (toy_create_reply w.0, (create_held 2 w.0, w.1, w.2, w.3));
  image_inspect = λ w. (done, w);
  network_inspect = λ w. (some toy_endpoints, w);
  network_create = λ w. (done, w);
  stat_config = λ w. (exists, w);
  route_exec = λ n w. (toy_exec n, w);
  wait = λ w. (true, (w.0, w.1 + 1, w.2, w.3));
}

abbrev toy_settings : Settings
toy_settings = record {
  proxy_container = "ws-proxy";
  backup_name = "ws-proxy-backup";
  proxy_ip = bytes "10.0.0.2";
  health_timeout = 60;
  start_grace = 10;
}

toy_report-Reports : (o : Option ℕ) → Reports (toy_report o) o
toy_report-Reports none = refl
toy_report-Reports (some i) = (i, refl)

toy_rename-Movable : (a b : Name) (ns : Names) → toy_rename_reply a b ns ≡ done → Movable a b ns
toy_rename-Movable primary backup (held (some i) none) h = tt
toy_rename-Movable primary backup (held (some i) (some j)) h = absurd cc
toy_rename-Movable primary backup (held none b) h = absurd cc
toy_rename-Movable backup primary (held none (some i)) h = tt
toy_rename-Movable backup primary (held none none) h = absurd cc
toy_rename-Movable backup primary (held (some i) b) h = absurd cc
toy_rename-Movable primary primary ns h = absurd cc
toy_rename-Movable backup backup ns h = absurd cc

toy-Documented : Documented toy
toy-Documented = record {
  quiet = λ i. record {
    client_keeps = λ w. refl;
    inspect_keeps = λ n w. refl;
    image_keeps = λ w. refl;
    network_keeps = λ w. refl;
    network_create_keeps = λ w. refl;
    stat_keeps = λ w. refl;
    exec_keeps = λ n w. refl;
    wait_keeps = λ w. refl;
  };
  inspect_reports = λ n w. toy_report-Reports (lookup n w.0);
  stop_keeps = λ n w. refl;
  start_keeps = λ n w. refl;
  connect_keeps = λ n w. refl;
  disconnect_keeps = λ n w. refl;
  connect_done = λ n w i h r. refl;
  start_done = λ n w i h r. refl;
  start_attached = λ n w i. refl;
  rename_attached = λ a b w i. refl;
  rename_started = λ a b w i. refl;
  remove_held_or = λ n w. inr refl;
  remove_done = λ n w h. refl;
  rename_held_or = λ a b w. inr refl;
  rename_done = λ a b w h. (toy_rename-Movable a b w.0 h, refl);
  create_held_or = λ w. inr (2, refl);
  create_done = λ w h. (2, refl);
}

abbrev toy_clock : HasClock toy 0
toy_clock = record {
  ticks = λ w. w.1;
  inspect_later = λ n w. omega arith;
  inspect_ticks = λ n w. refl;
  wait_later = λ w. omega arith;
  wait_ticks = λ w h. omega arith;
  tick_late = λ w h. omega arith;
}

abbrev swap_start : ToyWorld
swap_start = (held (some 1) none, 0, true, true)

abbrev resume_start : ToyWorld
resume_start = (held none (some 1), 0, false, false)

-- The new proxy is unhealthy, so the run rolls back.
swap_run : (proxy_recreate toy toy_settings swap_start).0 ≡ rolled_back (unhealthy_new is_unhealthy)
unfolding proxy_recreate with_client after_inspect_primary inspect_both after_inspect_backup
    classified swap proxy_create_preflight after_image after_stat ensure_proxy_network
    after_create_network check_address held_by foreign_holder address_of text_eq after_preflight
    after_stop_old rename_step after_rename_old after_disconnect proxy_create_and_start after_create
    after_start after_create_new after_verify verify_healthy verify_loop poll_next poll poll_state
    poll_health or_timed_out rollback_to_backup after_remove_new after_reconnect after_start_backup
    after_rename_backup verify_restored restored_verdict
swap_run = refl

proxy_recreate-Swapped_example :
    Swapped toy toy_settings 1
      (proxy_recreate toy toy_settings swap_start).0
      (proxy_recreate toy toy_settings swap_start).1
proxy_recreate-Swapped_example =
    proxy_recreate-Swapped toy toy-Documented toy_settings 1 none swap_start refl

proxy_recreate-Resumed_example :
    Resumed 1
      (proxy_recreate toy toy_settings resume_start).0
      (standing toy 1 (proxy_recreate toy toy_settings resume_start).1)
proxy_recreate-Resumed_example =
    proxy_recreate-Resumed toy toy-Documented toy_settings 1 resume_start refl

abbrev broken_new : ToyWorld
broken_new = (held (some 2) (some 1), 0, false, false)

rollback_to_backup-RolledBack_example :
    RolledBack 1
      (rollback_to_backup toy toy_settings start_new broken_new).0
      (standing toy 1 (rollback_to_backup toy toy_settings start_new broken_new).1)
rollback_to_backup-RolledBack_example =
    rollback_to_backup-RolledBack toy toy-Documented toy_settings 1 start_new (some 2) broken_new
      refl

verify_healthy_ends_example :
    (v : Verdict) × ((verify_loop toy 4 1 0 3 swap_start).0 ≡ some v)
    × ((verify_healthy toy 3 1 swap_start).0 ≡ v)
verify_healthy_ends_example = verify_healthy_ends toy 0 toy_clock 3 1 swap_start refl refl

verify_healthy-Shown_example :
    Shown toy (verify_healthy toy 3 1 swap_start).0 (verify_healthy toy 3 1 swap_start).1
verify_healthy-Shown_example = verify_healthy-Shown toy 3 1 swap_start

fix_routes-Accounts_example :
    Accounts toy toy_settings
      (some toy_endpoints)
      swap_start
      (fix_routes toy toy_settings swap_start).0
fix_routes-Accounts_example = fix_routes-Accounts toy toy_settings swap_start refl

check_address-Clear_example :
    (check_address toy_settings (some toy_endpoints) ≡ none)
    ↔ All (Clear toy_settings) toy_endpoints
check_address-Clear_example = check_address-Clear toy_settings toy_endpoints

proxy_restart-IsRestart_example :
    IsRestart toy toy_settings swap_start
      (proxy_restart toy toy_settings swap_start).0
      (proxy_restart toy toy_settings swap_start).1
    × (toy.names (proxy_restart toy toy_settings swap_start).1 ≡ held (some 1) none)
proxy_restart-IsRestart_example =
    proxy_restart-IsRestart toy toy-Documented toy_settings 1 none swap_start refl

proxy_check-Observed_example : Observed toy swap_start (proxy_check toy swap_start).0
proxy_check-Observed_example = proxy_check-Observed toy swap_start
