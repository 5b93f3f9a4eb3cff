-- ===== src/Docker/Health.antt =====
-- `verifyHealthy` of internal/docker/recreate_tx.go: the polling loop and its verdict. Times are
-- counted in polling intervals. The loop takes `timeout + 1` as its fuel.
pub mod Termination
pub mod Verdicts
use workspace_cli.Docker.Client.{
  Engine, HealthStatus, Inspect, Status, absent, broken, dead, exited, healthy, live, primary, seen,
  starting, stateless, unhealthy,
}
use workspace_cli.Prelude.{
  Bool, Option, false, if◌then◌else◌, leb, none, some, suc, true, zero, ℕ, ◌+◌, ◌-◌,
}

pub data HealthError : Type 0 where
  timed_out inspect_failed no_state crashed not_started is_unhealthy : HealthError

-- `sound` is ok and not weak, `weak` ok and weak.
pub data Verdict : Type 0 where
  sound weak : Verdict
  bad : HealthError → Verdict

-- A poll decides, or the loop goes on.
pub data Poll : Type 0 where
  decided : Verdict → Poll
  undecided : Poll

-- `case info.State.Health == nil` and below.
unfoldable pub poll_health : Option HealthStatus → Poll
poll_health none = decided weak
poll_health (some healthy) = decided sound
poll_health (some unhealthy) = decided (bad is_unhealthy)
poll_health (some starting) = undecided

-- The switch on the state, `elapsed` intervals after the start.
unfoldable pub poll_state : ℕ → ℕ → Status → Bool → Option HealthStatus → Poll
poll_state grace elapsed exited running health = decided (bad crashed)
poll_state grace elapsed dead running health = decided (bad crashed)
poll_state grace elapsed live false health =
    if leb grace elapsed then decided (bad not_started) else undecided
poll_state grace elapsed live true health = poll_health health

-- One inspect, up to the end of the switch.
unfoldable pub poll : ℕ → ℕ → Inspect → Poll
unfolding poll_state poll_health
poll grace elapsed absent = decided (bad inspect_failed)
poll grace elapsed (broken deadline) =
    decided (bad (if deadline then timed_out else inspect_failed))
poll grace elapsed stateless = decided (bad no_state)
poll grace elapsed (seen s) = poll_state grace elapsed s.status s.running s.health

unfoldable pub or_timed_out : Option Verdict → Verdict
or_timed_out none = bad timed_out
or_timed_out (some v) = v

module _ (e : Engine) where
  open e use {World, now, inspect, wait}

  -- Behind a poll: the deadline, then the ticker or the context.
  unfoldable pub poll_next :
      (World → Option Verdict × World) → ℕ → Poll → World → Option Verdict × World
  poll_next again deadline (decided v) w = (some v, w)
  poll_next again deadline undecided w =
      let (ticked, w') = wait w in
      let rest = again w' in
      if leb deadline (now w)
      then (some (bad timed_out), w)
      else if ticked
      then rest
      else (some (bad timed_out), w')

  unfoldable pub verify_loop : ℕ → ℕ → ℕ → ℕ → World → Option Verdict × World
  verify_loop zero grace began deadline w = (none, w)
  verify_loop (suc fuel) grace began deadline w =
      let (reply, w') = inspect primary w in
      poll_next (verify_loop fuel grace began deadline) deadline (poll grace (now w' - began) reply)
        w'

  unfoldable pub verify_healthy : ℕ → ℕ → World → Verdict × World
  unfolding or_timed_out
  verify_healthy timeout grace w =
      let (v, w') = verify_loop (suc timeout) grace (now w) (now w + timeout) w in
      (or_timed_out v, w')
