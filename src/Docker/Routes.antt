-- ===== src/Docker/Routes.antt =====
-- `ProxyFixRoutes` of internal/docker/docker.go: every container on the proxy network, but the
-- proxy itself, gets its default route replaced. Error texts are not modelled: a failure is the
-- name of its container.
pub mod Report
use workspace_cli.Docker.Client.{Endpoint, Engine, Reply, done, failed, not_found}
use workspace_cli.Prelude.{
  Bytes, Bool, List, Option, String, [], false, if◌then◌else◌, is_empty, none, not, some, str_eq,
  true, ℕ, ◌++◌, ◌+◌, ◌∷◌,
}

-- What the code reads of config.Config, and its two constants, in polling intervals.
pub record Settings : Type 0 where
  pub proxy_container : String
  pub backup_name : String
  pub proxy_ip : Bytes
  pub health_timeout : ℕ
  pub start_grace : ℕ

pub record FixRoutesReport : Type 0 where
  pub fixed : ℕ
  pub attempted : ℕ
  pub failures : List String

abbrev pub no_routes : FixRoutesReport
no_routes = record { fixed = 0; attempted = 0; failures = [] }

-- The loop's body behind the exec.
unfoldable pub count_route : String → Reply → FixRoutesReport → FixRoutesReport
count_route name done rep = record {
  fixed = rep.fixed + 1;
  attempted = rep.attempted + 1;
  failures = rep.failures;
}
count_route name not_found rep = record {
  fixed = rep.fixed;
  attempted = rep.attempted + 1;
  failures = rep.failures ++ name ∷ [];
}
count_route name failed rep = record {
  fixed = rep.fixed;
  attempted = rep.attempted + 1;
  failures = rep.failures ++ name ∷ [];
}

-- `rep.Err()`
unfoldable pub has_failures : FixRoutesReport → Bool
has_failures rep = not (is_empty rep.failures)

module _ (e : Engine) (cfg : Settings) where
  open e use {World}
  open cfg use {proxy_container}

  unfoldable pub fix_each : List Endpoint → FixRoutesReport → World → FixRoutesReport × World
  fix_each [] rep w = (rep, w)
  fix_each (ep ∷ eps) rep w =
      let (reply, w') = e.route_exec ep.name w in
      let skipped = fix_each eps rep w in
      let rest = fix_each eps (count_route ep.name reply rep) w' in
      if str_eq ep.name proxy_container then skipped else rest

  unfoldable pub fix_endpoints : Option (List Endpoint) → World → Option FixRoutesReport × World
  fix_endpoints none w = (none, w)
  fix_endpoints (some eps) w = let (rep, w') = fix_each eps no_routes w in (some rep, w')

  unfoldable pub fix_with : Bool → World → Option FixRoutesReport × World
  fix_with false w = (none, w)
  fix_with true w = let (eps, w') = e.network_inspect w in fix_endpoints eps w'

  -- none for an error: no client, or the network cannot be inspected.
  unfoldable pub fix_routes : World → Option FixRoutesReport × World
  unfolding fix_with fix_endpoints
  fix_routes w = let (ok, w') = e.new_client w in fix_with ok w'
