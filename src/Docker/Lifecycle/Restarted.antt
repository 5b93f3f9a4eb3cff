-- ===== src/Docker/Lifecycle/Restarted.antt =====
-- `ProxyRestart` of the container that is there.
use workspace_cli.Docker.Client.{
  Engine, Inspect, Reply, absent, broken, done, failed, held, not_found, primary, seen, stateless,
}
use workspace_cli.Docker.Create.{
  Fault, after_create, after_start, proxy_create_and_start, proxy_create_preflight,
}
use workspace_cli.Docker.Documented.{Documented, create_held, names-IsQuiet}
use workspace_cli.Docker.Health.{Verdict, bad, sound, verify_healthy, weak}
use workspace_cli.Docker.Health.Verdicts.{Shown, verify_healthy-Shown}
use workspace_cli.Docker.Lifecycle.{
  DownReply, RestartReply, UpReply, create_fault, down_no_client, down_ok, down_with, panicked,
  proxy_down, proxy_restart, proxy_up, restart_aborted, restart_down, restart_no_client,
  restart_stopped, restart_unhealthy, restart_up, restart_verdict, restart_verify, restarted,
  routes_failed, start_failed, stop_failed, up_create, up_created, up_inspected, up_no_client,
  up_ok, up_preflight, up_routes, up_seen, up_started, up_with, down_reply,
}
use workspace_cli.Docker.Quiet.{
  fix_routes-keeps, proxy_create_preflight-keeps, verify_healthy-keeps,
}
use workspace_cli.Docker.Routes.{Settings}
use workspace_cli.Prelude.{
  Bool, Option, ap, false, inl, inr, none, refl, some, true, ℕ, ◌∙◌, ◌≡◌, ◌≢◌, if◌then◌else◌, sym,
}

-- The stop of a restart from w was made, and did not fail.
abbrev pub StopMade : (e : Engine) → e.World → Type 0
StopMade e w = ((e.new_client w).0 ≡ true) × ((e.stop primary (e.new_client w).1).0 ≢ failed)

-- Why a restart from w stops at the stop.
abbrev pub Aborted : (e : Engine) → e.World → DownReply → Type 0
Aborted e w down_ok = ⊥
Aborted e w down_no_client = (e.new_client w).0 ≡ false
Aborted e w stop_failed = (e.stop primary (e.new_client w).1).0 ≡ failed

-- A restart from the world w that ends in the world `end`.
abbrev pub IsRestart : (e : Engine) → Settings → e.World → RestartReply → e.World → Type 0
IsRestart e cfg w (restarted unchecked) end =
    StopMade e w × Shown e (if unchecked then weak else sound) end
IsRestart e cfg w (restart_aborted r) end = Aborted e w r
IsRestart e cfg w (restart_down r) end = StopMade e w × (r ≢ up_ok)
IsRestart e cfg w restart_no_client end = StopMade e w
IsRestart e cfg w (restart_unhealthy x) end =
    StopMade e w
    × ((u : e.World) × (verify_healthy e cfg.health_timeout cfg.start_grace u ≡ (bad x, end)))

module _ (e : Engine) (d : Documented e) (cfg : Settings) (i : ℕ) (b : Option ℕ) where
  open e use {World, names}

  -- The proxy is i, and the backup's name is as it was.
  abbrev Same : World → Type 0
  Same w = names w ≡ held (some i) b

  create-Same : (w : World) → Same w → Same (e.create w).1
  create-Same w q = elim (d.create_held_or w) [
    | inl h ↦ h ∙ q
    | inr (j, h) ↦ h ∙ ap (create_held j) q
  ]

  after_start-Same : (r : Reply) (w : World) → Same w → Same (after_start e cfg r w).1
  unfolding after_start
  after_start-Same done w h = h
  after_start-Same not_found w h = h
  after_start-Same failed w h = h

  after_create-Same : (r : Reply) (w : World) → Same w → Same (after_create e cfg r w).1
  unfolding after_create
  after_create-Same done w q =
      after_start-Same (e.start primary w).0 _ (d.start_keeps primary w ∙ q)
  after_create-Same not_found w h = h
  after_create-Same failed w h = h

  proxy_create_and_start-Same : (w : World) → Same w → Same (proxy_create_and_start e cfg w).1
  unfolding proxy_create_and_start
  proxy_create_and_start-Same w q = after_create-Same (e.create w).0 _ (create-Same w q)

  up_routes-Same : (w : World) → Same w → Same (up_routes e cfg w).1
  unfolding up_routes
  up_routes-Same w q = fix_routes-keeps e names (names-IsQuiet e d) cfg w ∙ q

  up_started-Same : (r : Reply) (w : World) → Same w → Same (up_started e cfg r w).1
  unfolding up_started
  up_started-Same done w q = up_routes-Same w q
  up_started-Same not_found w q = q
  up_started-Same failed w q = q

  up_seen-Same : (r : Bool) (w : World) → Same w → Same (up_seen e cfg r w).1
  unfolding up_seen
  up_seen-Same true w q = up_routes-Same w q
  up_seen-Same false w q = up_started-Same (e.start primary w).0 _ (d.start_keeps primary w ∙ q)

  up_created-Same : (o : Option Fault) (w : World) → Same w → Same (up_created e cfg o w).1
  unfolding up_created
  up_created-Same (some f) w q = q
  up_created-Same none w q = up_routes-Same w q

  up_preflight-Same : (o : Option Fault) (w : World) → Same w → Same (up_preflight e cfg o w).1
  unfolding up_preflight
  up_preflight-Same (some f) w q = q
  up_preflight-Same none w q =
      up_created-Same (proxy_create_and_start e cfg w).0 _ (proxy_create_and_start-Same w q)

  up_create-Same : (w : World) → Same w → Same (up_create e cfg w).1
  unfolding up_create
  up_create-Same w q =
      up_preflight-Same (proxy_create_preflight e cfg w).0 _
        (proxy_create_preflight-keeps e names (names-IsQuiet e d) cfg w ∙ q)

  up_inspected-Same : (r : Inspect) (w : World) → Same w → Same (up_inspected e cfg r w).1
  unfolding up_inspected
  up_inspected-Same (seen s) w q = up_seen-Same s.running w q
  up_inspected-Same stateless w q = q
  up_inspected-Same absent w q = up_create-Same w q
  up_inspected-Same (broken l) w q = up_create-Same w q

  up_with-Same : (ok : Bool) (w : World) → Same w → Same (up_with e cfg ok w).1
  unfolding up_with
  up_with-Same false w q = q
  up_with-Same true w q =
      up_inspected-Same (e.inspect primary w).0 _ ((names-IsQuiet e d).inspect_keeps primary w ∙ q)

  proxy_up-Same : (w : World) → Same w → Same (proxy_up e cfg w).1
  unfolding proxy_up
  proxy_up-Same w q = up_with-Same (e.new_client w).0 _ ((names-IsQuiet e d).client_keeps w ∙ q)

  down_with-Same : (ok : Bool) (w : World) → Same w → Same (down_with e cfg ok w).1
  unfolding down_with
  down_with-Same false w q = q
  down_with-Same true w q = d.stop_keeps primary w ∙ q

  proxy_down-Same : (w : World) → Same w → Same (proxy_down e cfg w).1
  unfolding proxy_down
  proxy_down-Same w q = down_with-Same (e.new_client w).0 _ ((names-IsQuiet e d).client_keeps w ∙ q)

  -- From a world z whose stop was made, to where the run ends.
  abbrev Out : World → RestartReply × World → Type 0
  Out z r = IsRestart e cfg z r.0 r.1 × Same r.1

  restart_verdict-IsRestart :
      (z u m : World) (v : Verdict)
      → StopMade e z
      → verify_healthy e cfg.health_timeout cfg.start_grace u ≡ (v, m)
      → Shown e v m
      → IsRestart e cfg z (restart_verdict e cfg v) m
  unfolding restart_verdict
  restart_verdict-IsRestart z u m sound p q s = (p, s)
  restart_verdict-IsRestart z u m weak p q s = (p, s)
  restart_verdict-IsRestart z u m (bad x) p q s = (p, (u, q))

  restart_verify-IsRestart :
      (z : World) (ok : Bool) (w : World)
      → StopMade e z
      → Same w
      → Out z (restart_verify e cfg ok w)
  unfolding restart_verify
  restart_verify-IsRestart z false w p q = (p, q)
  restart_verify-IsRestart z true w p q =
      let v = verify_healthy e cfg.health_timeout cfg.start_grace w in
      (
        restart_verdict-IsRestart z w v.1 v.0 p refl (verify_healthy-Shown e _ _ w),
        verify_healthy-keeps e names (names-IsQuiet e d) _ _ w ∙ q,
      )

  restart_up-IsRestart :
      (z : World) (r : UpReply) (w : World) → StopMade e z → Same w → Out z (restart_up e cfg r w)
  unfolding restart_up
  restart_up-IsRestart z up_ok w p q =
      restart_verify-IsRestart z (e.new_client w).0 _ p ((names-IsQuiet e d).client_keeps w ∙ q)
  restart_up-IsRestart z up_no_client w p q = ((p, λ h. cc), q)
  restart_up-IsRestart z start_failed w p q = ((p, λ h. cc), q)
  restart_up-IsRestart z routes_failed w p q = ((p, λ h. cc), q)
  restart_up-IsRestart z panicked w p q = ((p, λ h. cc), q)
  restart_up-IsRestart z (create_fault f) w p q = ((p, λ h. cc), q)

  -- What the stop's reply says of the run from z.
  abbrev Down : World → DownReply → Type 0
  Down z down_ok = StopMade e z
  Down z down_no_client = Aborted e z down_no_client
  Down z stop_failed = Aborted e z stop_failed

  restart_stopped-IsRestart :
      (z : World) (r : DownReply) (w : World)
      → Down z r
      → Same w
      → Out z (restart_stopped e cfg r w)
  unfolding restart_stopped
  restart_stopped-IsRestart z down_ok w p q =
      restart_up-IsRestart z (proxy_up e cfg w).0 _ p (proxy_up-Same w q)
  restart_stopped-IsRestart z down_no_client w p q = (p, q)
  restart_stopped-IsRestart z stop_failed w p q = (p, q)

  down_reply-Down :
      (z : World) (r : Reply)
      → (e.new_client z).0 ≡ true
      → (e.stop primary (e.new_client z).1).0 ≡ r
      → Down z (down_reply e cfg r)
  unfolding down_reply
  down_reply-Down z done c q = (c, λ h. let p = sym q ∙ h in cc)
  down_reply-Down z not_found c q = (c, λ h. let p = sym q ∙ h in cc)
  down_reply-Down z failed c q = q

  down_with-Down :
      (z : World) (ok : Bool)
      → (e.new_client z).0 ≡ ok
      → Down z (down_with e cfg ok (e.new_client z).1).0
  unfolding down_with
  down_with-Down z false q = q
  down_with-Down z true q = down_reply-Down z (e.stop primary (e.new_client z).1).0 q refl

  proxy_down-Down : (z : World) → Down z (proxy_down e cfg z).0
  unfolding proxy_down
  proxy_down-Down z = down_with-Down z (e.new_client z).0 refl

  -- With an engine that does what Docker documents, a restart of the proxy i leaves i the proxy and
  -- a backup as it was, whatever calls fail. A missing client or a failed stop ends it and is reported
  -- as such; every other reply means that the stop was made and did not fail. It reports success only
  -- when the last inspect of its health check, in the world where the run ends, found the proxy running,
  -- not in a terminal state, and healthy or with no health check (the reply says which); it reports an
  -- unhealthy proxy with the error of that health check.
  pub proxy_restart-IsRestart :
      (w : World)
      → names w ≡ held (some i) b
      → let out = proxy_restart e cfg w in
        IsRestart e cfg w out.0 out.1 × (names out.1 ≡ held (some i) b)
  unfolding proxy_restart
  proxy_restart-IsRestart w q =
      restart_stopped-IsRestart w (proxy_down e cfg w).0 _ (proxy_down-Down w) (proxy_down-Same w q)
