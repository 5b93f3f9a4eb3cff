-- ===== src/Docker/Health/Termination.antt =====
-- The rounds of the polling loop.
use workspace_cli.Docker.Client.{Engine, Name, primary}
use workspace_cli.Docker.Health.{
  Poll, Verdict, decided, poll_next, undecided, verify_loop, verify_healthy, or_timed_out,
}
use workspace_cli.Prelude.{
  Option, arith, if_intro, leb, none, some, suc, zero, ℕ, ◌+◌, ◌<◌, ◌≤◌, leb→lt, ◌≡◌, ap, refl,
  true,
}

-- The clock, and the ticker that is made at `began`: it sends its k-th tick k intervals later, and drops
-- ticks that nobody receives, so that the k-th tick that is received is no earlier than that. A tick
-- may have waited in the channel, and a context that is done ends a wait at once.
pub record HasClock (e : Engine) (began : ℕ) : Type 0 where
  -- the ticks received
  pub ticks : e.World → ℕ
  pub inspect_later : (n : Name) (w : e.World) → e.now w ≤ e.now (e.inspect n w).1
  pub inspect_ticks : (n : Name) (w : e.World) → ticks (e.inspect n w).1 ≡ ticks w
  pub wait_later : (w : e.World) → e.now w ≤ e.now (e.wait w).1
  pub wait_ticks : (w : e.World) → (e.wait w).0 ≡ true → ticks (e.wait w).1 ≡ ticks w + 1
  pub tick_late :
      (w : e.World) → (e.wait w).0 ≡ true → began + ticks (e.wait w).1 ≤ e.now (e.wait w).1

abbrev pub IsSome {ℓ} : {A : Type ℓ} → Option A → Type 0
IsSome none = ⊥
IsSome (some a) = Unit

module _ (e : Engine) (began : ℕ) (c : HasClock e began) where
  poll_next-IsSome :
      (fuel : ℕ) (again : e.World → Option Verdict × e.World) (deadline : ℕ) (p : Poll)
      (w : e.World)
      → deadline < suc fuel + (began + c.ticks w)
      → began + c.ticks w ≤ e.now w
      → ((v : e.World)
          → deadline < fuel + (began + c.ticks v)
          → began + c.ticks v ≤ e.now v
          → 0 < fuel
          → IsSome (again v).0)
      → IsSome (poll_next e again deadline p w).0
  unfolding poll_next
  poll_next-IsSome fuel again deadline (decided v) w h l k = tt
  poll_next-IsSome fuel again deadline undecided w h l k =
      if_intro (λ (r : Option Verdict × e.World). IsSome r.0) (leb deadline (e.now w)) _ _ (λ _. tt)
        λ q.
          if_intro (λ (r : Option Verdict × e.World). IsSome r.0) (e.wait w).0 _ _
            (λ t.
              let early = leb→lt deadline (e.now w) q in
              let one = c.wait_ticks w t in
              let late = c.tick_late w t in
              k (e.wait w).1 (omega (arith, h, one)) late (omega (arith, h, l, early)))
            (λ _. tt)

  -- Fuel that covers the time to the deadline is enough.
  verify_loop-IsSome :
      (fuel grace start deadline : ℕ) (w : e.World)
      → deadline < fuel + (began + c.ticks w)
      → began + c.ticks w ≤ e.now w
      → 0 < fuel
      → IsSome (verify_loop e fuel grace start deadline w).0
  unfolding verify_loop
  verify_loop-IsSome zero grace start deadline w h l p = absurd (omega arith)
  verify_loop-IsSome (suc fuel) grace start deadline w h l p =
      let same = c.inspect_ticks primary w in
      poll_next-IsSome fuel (verify_loop e fuel grace start deadline) deadline _
        (e.inspect primary w).1 (omega (arith, h, same))
        (omega (arith, l, same, c.inspect_later primary w))
        (λ v a b q. verify_loop-IsSome fuel grace start deadline v a b q)

  IsSome→≡ : (o : Option Verdict) → IsSome o → (v : Verdict) × (o ≡ some v)
  IsSome→≡ none h = absurd h
  IsSome→≡ (some v) h = (v, refl)

  -- When the ticker is made at the start, its k-th tick is received no earlier than k intervals later
  -- (it may be received at once where it has waited), and an inspect does not turn the clock back, the
  -- polling loop ends with a verdict whatever the engine replies, and verify_healthy returns it: it
  -- needs no more rounds than the timeout has intervals, and one.
  pub verify_healthy_ends :
      (timeout grace : ℕ) (w : e.World)
      → e.now w ≡ began
      → c.ticks w ≡ 0
      → (v : Verdict) × ((verify_loop e (suc timeout) grace (e.now w) (e.now w + timeout) w).0
          ≡ some v)
        × ((verify_healthy e timeout grace w).0 ≡ v)
  unfolding verify_healthy or_timed_out
  verify_healthy_ends timeout grace w n z =
      let run = verify_loop e (suc timeout) grace (e.now w) (e.now w + timeout) w in
      let (v, q) = IsSome→≡ run.0 (
        verify_loop-IsSome (suc timeout) grace (e.now w) (e.now w + timeout) w (omega (arith, n, z))
          (omega (arith, n, z)) (omega arith)) in
      (v, q, ap or_timed_out q)
