-- ===== src/Docker/Quiet.antt =====
-- The parts of the transaction that only read, and those that replace routes, leave alone what the
-- calls they make leave alone.
use workspace_cli.Docker.Client.{
  Endpoint, Engine, Reply, Stat, done, exists, failed, missing, not_found, primary, unreadable,
}
use workspace_cli.Docker.Create.{
  after_create_network, after_image, after_stat, ensure_proxy_network, proxy_create_preflight,
}
use workspace_cli.Docker.Documented.{IsQuiet}
use workspace_cli.Docker.Health.{
  Poll, Verdict, decided, poll_next, undecided, verify_healthy, verify_loop,
}
use workspace_cli.Docker.Routes.{
  FixRoutesReport, Settings, fix_each, fix_endpoints, fix_routes, fix_with, no_routes,
}
use workspace_cli.Prelude.{
  Bool, List, Option, [], false, if_intro, leb, none, refl, some, str_eq, suc, true, zero, ℕ, ◌∙◌,
  ◌∷◌, ◌≡◌,
}

module _ (e : Engine) {X : Type 0} (see : e.World → X) (d : IsQuiet e see) where
  open e use {World}

  poll_next-keeps :
      (again : World → Option Verdict × World) (deadline : ℕ) (p : Poll) (w : World)
      → ((v : World) → see (again v).1 ≡ see v)
      → see (poll_next e again deadline p w).1 ≡ see w
  unfolding poll_next
  poll_next-keeps again deadline (decided v) w k = refl
  poll_next-keeps again deadline undecided w k =
      if_intro (λ (r : Option Verdict × World). see r.1 ≡ see w) (leb deadline (e.now w)) _ _
        (λ _. refl)
        λ _.
          if_intro (λ (r : Option Verdict × World). see r.1 ≡ see w) (e.wait w).0 _ _
            (λ _. k (e.wait w).1 ∙ d.wait_keeps w) (λ _. d.wait_keeps w)

  verify_loop-keeps :
      (fuel grace began deadline : ℕ) (w : World)
      → see (verify_loop e fuel grace began deadline w).1 ≡ see w
  unfolding verify_loop
  verify_loop-keeps zero grace began deadline w = refl
  verify_loop-keeps (suc fuel) grace began deadline w =
      poll_next-keeps (verify_loop e fuel grace began deadline) deadline _ (e.inspect primary w).1
        (verify_loop-keeps fuel grace began deadline)
      ∙ d.inspect_keeps primary w

  pub verify_healthy-keeps :
      (timeout grace : ℕ) (w : World) → see (verify_healthy e timeout grace w).1 ≡ see w
  unfolding verify_healthy
  verify_healthy-keeps timeout grace w = verify_loop-keeps (suc timeout) grace _ _ w

  module _ (cfg : Settings) where
    fix_each-keeps :
        (eps : List Endpoint) (rep : FixRoutesReport) (w : World)
        → see (fix_each e cfg eps rep w).1 ≡ see w
    unfolding fix_each
    fix_each-keeps [] rep w = refl
    fix_each-keeps (ep ∷ eps) rep w =
        if_intro (λ (r : FixRoutesReport × World). see r.1 ≡ see w)
          (str_eq ep.name cfg.proxy_container) _ _ (λ _. fix_each-keeps eps rep w)
          (λ _. fix_each-keeps eps _ (e.route_exec ep.name w).1 ∙ d.exec_keeps ep.name w)

    fix_endpoints-keeps :
        (o : Option (List Endpoint)) (w : World) → see (fix_endpoints e cfg o w).1 ≡ see w
    unfolding fix_endpoints
    fix_endpoints-keeps none w = refl
    fix_endpoints-keeps (some eps) w = fix_each-keeps eps no_routes w

    fix_with-keeps : (b : Bool) (w : World) → see (fix_with e cfg b w).1 ≡ see w
    unfolding fix_with
    fix_with-keeps false w = refl
    fix_with-keeps true w =
        fix_endpoints-keeps (e.network_inspect w).0 (e.network_inspect w).1 ∙ d.network_keeps w

    pub fix_routes-keeps : (w : World) → see (fix_routes e cfg w).1 ≡ see w
    unfolding fix_routes
    fix_routes-keeps w = fix_with-keeps (e.new_client w).0 (e.new_client w).1 ∙ d.client_keeps w

    after_create_network-keeps :
        (r : Reply) (w : World) → see (after_create_network e cfg r w).1 ≡ see w
    unfolding after_create_network
    after_create_network-keeps done w = d.network_keeps w
    after_create_network-keeps not_found w = refl
    after_create_network-keeps failed w = refl

    ensure_proxy_network-keeps :
        (o : Option (List Endpoint)) (w : World) → see (ensure_proxy_network e cfg o w).1 ≡ see w
    unfolding ensure_proxy_network
    ensure_proxy_network-keeps (some eps) w = after_create_network-keeps done w
    ensure_proxy_network-keeps none w =
        after_create_network-keeps (e.network_create w).0 (e.network_create w).1
        ∙ d.network_create_keeps w

    after_stat-keeps : (s : Stat) (w : World) → see (after_stat e cfg s w).1 ≡ see w
    unfolding after_stat
    after_stat-keeps missing w = refl
    after_stat-keeps exists w =
        ensure_proxy_network-keeps (e.network_inspect w).0 (e.network_inspect w).1
        ∙ d.network_keeps w
    after_stat-keeps unreadable w =
        ensure_proxy_network-keeps (e.network_inspect w).0 (e.network_inspect w).1
        ∙ d.network_keeps w

    after_image-keeps : (r : Reply) (w : World) → see (after_image e cfg r w).1 ≡ see w
    unfolding after_image
    after_image-keeps done w =
        after_stat-keeps (e.stat_config w).0 (e.stat_config w).1 ∙ d.stat_keeps w
    after_image-keeps not_found w = refl
    after_image-keeps failed w = refl

    pub proxy_create_preflight-keeps : (w : World) → see (proxy_create_preflight e cfg w).1 ≡ see w
    unfolding proxy_create_preflight
    proxy_create_preflight-keeps w =
        after_image-keeps (e.image_inspect w).0 (e.image_inspect w).1 ∙ d.image_keeps w
