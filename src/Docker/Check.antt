-- ===== src/Docker/Check.antt =====
-- `ProxyCheck` of internal/docker/docker.go. A not-exist of the config's stat includes a path that
-- runs through a regular file, and a not-found of the engine a name that it rejects.
pub mod Evidence
use workspace_cli.Docker.Client.{
  Engine, Inspect, Reply, Stat, absent, broken, done, exists, failed, missing, not_found, primary,
  seen, stateless, unreadable,
}
use workspace_cli.Prelude.{Bool, Option, false, none, some, true}

pub record CheckResult : Type 0 where
  pub passed : Bool
  pub skipped : Bool

pub record Checks : Type 0 where
  pub docker : CheckResult
  pub config : CheckResult
  pub image : CheckResult
  pub proxy : CheckResult

abbrev pub pass : CheckResult
pass = record { passed = true; skipped = false }

abbrev pub fail : CheckResult
fail = record { passed = false; skipped = false }

abbrev pub skip : CheckResult
skip = record { passed = false; skipped = true }

unfoldable pub config_check : Stat → CheckResult
config_check exists = pass
config_check missing = fail
config_check unreadable = skip

unfoldable pub image_check : Reply → CheckResult
image_check done = pass
image_check not_found = fail
image_check failed = skip

-- none for a panic: a reply with no state, whose Running the code reads.
unfoldable pub proxy_check_of : Inspect → Option CheckResult
proxy_check_of absent = some fail
proxy_check_of (broken late) = some skip
proxy_check_of stateless = none
proxy_check_of (seen s) = some (record { passed = s.running; skipped = false })

unfoldable pub unreached : CheckResult → Checks
unreached config = record { docker = fail; config = config; image = skip; proxy = skip }

unfoldable pub all_checks : CheckResult → CheckResult → Option CheckResult → Option Checks
all_checks config image none = none
all_checks config image (some proxy) =
    some (record { docker = pass; config = config; image = image; proxy = proxy })

module _ (e : Engine) where
  open e use {World}

  unfoldable pub check_pinged : Bool → CheckResult → World → Option Checks × World
  unfolding unreached all_checks image_check proxy_check_of
  check_pinged false config w = (some (unreached config), w)
  check_pinged true config w =
      let (image, w') = e.image_inspect w in
      let (reply, w'') = e.inspect primary w' in
      (all_checks config (image_check image) (proxy_check_of reply), w'')

  unfoldable pub check_with : Bool → CheckResult → World → Option Checks × World
  unfolding check_pinged
  check_with false config w = (some (unreached config), w)
  check_with true config w = let (ok, w') = e.ping w in check_pinged ok config w'

  unfoldable pub proxy_check : World → Option Checks × World
  unfolding check_with config_check
  proxy_check w =
      let (stat, w') = e.stat_config w in
      let (ok, w'') = e.new_client w' in check_with ok (config_check stat) w''
