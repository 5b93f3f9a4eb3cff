-- ===== src/Docker/Health/Verdicts.antt =====
-- The verdict of the polling loop of `verifyHealthy`, and its last inspect.
-- The last inspect, in the world w, replied with r and left the world w'.
use workspace_cli.Docker.Client.{
  ContainerState, Engine, HealthStatus, Inspect, absent, broken, healthy, live, primary, seen,
  stateless, Status, dead, exited, starting, unhealthy,
}
use workspace_cli.Docker.Health.{
  Poll, Verdict, bad, decided, or_timed_out, poll, poll_health, poll_next, poll_state, sound,
  undecided, verify_healthy, verify_loop, weak,
}
use workspace_cli.Prelude.{
  Option, if_intro, leb, none, refl, some, subst, suc, true, zero, ℕ, ◌+◌, ◌≡◌, Bool, false,
}

abbrev pub Seen : (e : Engine) → e.World → Option HealthStatus → Type 0
Seen e w' h =
    (w : e.World) × (s : ContainerState) × (e.inspect primary w ≡ (seen s, w'))
    × (s.status ≡ live)
    × (s.running ≡ true)
    × (s.health ≡ h)

abbrev pub Shown : (e : Engine) → Verdict → e.World → Type 0
Shown e sound w' = Seen e w' (some healthy)
Shown e weak w' = Seen e w' none
Shown e (bad x) w' = Unit

abbrev Shows : (e : Engine) → Option Verdict → e.World → Type 0
Shows e none w = Unit
Shows e (some v) w = Shown e v w

-- What a poll decides of a reply.
abbrev Justified : Inspect → Poll → Type 0
Justified r undecided = Unit
Justified r (decided (bad x)) = Unit
Justified r (decided sound) =
    (s : ContainerState) × (r ≡ seen s)
    × (s.status ≡ live)
    × (s.running ≡ true)
    × (s.health ≡ some healthy)
Justified r (decided weak) =
    (s : ContainerState) × (r ≡ seen s) × (s.status ≡ live) × (s.running ≡ true) × (s.health ≡ none)

poll_state-Justified :
    (grace elapsed : ℕ) (s : ContainerState) (st : Status) (running : Bool)
    (h : Option HealthStatus)
    → s.status ≡ st
    → s.running ≡ running
    → s.health ≡ h
    → Justified (seen s) (poll_state grace elapsed st running h)
unfolding poll_state poll_health
poll_state-Justified grace elapsed s exited running h a b c = tt
poll_state-Justified grace elapsed s dead running h a b c = tt
poll_state-Justified grace elapsed s live false h a b c =
    if_intro (Justified (seen s)) (leb grace elapsed) _ _ (λ _. tt) (λ _. tt)
poll_state-Justified grace elapsed s live true none a b c = (s, refl, a, b, c)
poll_state-Justified grace elapsed s live true (some healthy) a b c = (s, refl, a, b, c)
poll_state-Justified grace elapsed s live true (some unhealthy) a b c = tt
poll_state-Justified grace elapsed s live true (some starting) a b c = tt

poll-Justified : (grace elapsed : ℕ) (r : Inspect) → Justified r (poll grace elapsed r)
unfolding poll
poll-Justified grace elapsed absent = tt
poll-Justified grace elapsed (broken d) = tt
poll-Justified grace elapsed stateless = tt
poll-Justified grace elapsed (seen s) =
    poll_state-Justified grace elapsed s s.status s.running s.health refl refl refl

module _ (e : Engine) where
  poll_next-Shows :
      (again : e.World → Option Verdict × e.World) (deadline : ℕ) (p : Poll) (u w : e.World)
      (r : Inspect)
      → e.inspect primary u ≡ (r, w)
      → Justified r p
      → ((v : e.World) → Shows e (again v).0 (again v).1)
      → Shows e (poll_next e again deadline p w).0 (poll_next e again deadline p w).1
  unfolding poll_next
  poll_next-Shows again deadline (decided (bad x)) u w r q j k = tt
  poll_next-Shows again deadline (decided sound) u w r q (s, p, l, n, h) k =
      (u, s, subst (λ x. e.inspect primary u ≡ (x, w)) p q, l, n, h)
  poll_next-Shows again deadline (decided weak) u w r q (s, p, l, n, h) k =
      (u, s, subst (λ x. e.inspect primary u ≡ (x, w)) p q, l, n, h)
  poll_next-Shows again deadline undecided u w r q j k =
      if_intro (λ (r : Option Verdict × e.World). Shows e r.0 r.1) (leb deadline (e.now w)) _ _
        (λ _. tt)
        λ _.
          if_intro (λ (r : Option Verdict × e.World). Shows e r.0 r.1) (e.wait w).0 _ _
            (λ _. k (e.wait w).1) (λ _. tt)

  verify_loop-Shows :
      (fuel grace began deadline : ℕ) (w : e.World)
      → Shows e
          (verify_loop e fuel grace began deadline w).0
          (verify_loop e fuel grace began deadline w).1
  unfolding verify_loop
  verify_loop-Shows zero grace began deadline w = tt
  verify_loop-Shows (suc fuel) grace began deadline w =
      poll_next-Shows (verify_loop e fuel grace began deadline) deadline _ w (e.inspect primary w).1
        (e.inspect primary w).0 refl (poll-Justified grace _ _)
        (verify_loop-Shows fuel grace began deadline)

  or_timed_out-Shows : (o : Option Verdict) (w : e.World) → Shows e o w → Shown e (or_timed_out o) w
  unfolding or_timed_out
  or_timed_out-Shows none w h = tt
  or_timed_out-Shows (some v) w h = h

  -- A sound verdict is the last inspect's, and that inspect found the container running, not in a
  -- terminal state, and healthy; a weak one found it running, with no health check.
  pub verify_healthy-Shown :
      (timeout grace : ℕ) (w : e.World)
      → Shown e (verify_healthy e timeout grace w).0 (verify_healthy e timeout grace w).1
  unfolding verify_healthy
  verify_healthy-Shown timeout grace w =
      or_timed_out-Shows _ _ (verify_loop-Shows (suc timeout) grace (e.now w) (e.now w + timeout) w)
