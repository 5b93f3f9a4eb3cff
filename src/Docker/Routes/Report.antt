-- ===== src/Docker/Routes/Report.antt =====
-- The report of `ProxyFixRoutes`, and the execs it is made of.
use mathlib.Core.List.{append-nil, append_assoc}
use workspace_cli.Docker.Client.{Endpoint, Engine, Reply, done, failed, not_found}
use workspace_cli.Docker.Routes.{
  FixRoutesReport, Settings, count_route, fix_each, fix_endpoints, fix_routes, fix_with,
  has_failures, no_routes,
}
use workspace_cli.Prelude.{
  List, String, [], arith, if◌then◌else◌, length, str_eq, ◌+◌, ◌∷◌, ◌≡◌, Bool, Option, ap, false,
  none, refl, some, suc, true, ℕ, ◌++◌, ◌↔◌, is_empty, not, sym, ◌∙◌,
}

-- The containers whose exec is not answered as done, in the order of the execs.
abbrev pub undone : List (String × Reply) → List String
undone [] = []
undone ((name, done) ∷ rs) = undone rs
undone ((name, not_found) ∷ rs) = name ∷ undone rs
undone ((name, failed) ∷ rs) = name ∷ undone rs

abbrev pub count_done : List (String × Reply) → ℕ
count_done [] = 0
count_done ((name, done) ∷ rs) = suc (count_done rs)
count_done ((name, not_found) ∷ rs) = count_done rs
count_done ((name, failed) ∷ rs) = count_done rs

-- What a pass over the containers adds to a report.
abbrev pub Covers : FixRoutesReport → List (String × Reply) → FixRoutesReport → Type 0
Covers old rs new =
    (new.attempted ≡ old.attempted + length rs)
    × (new.fixed ≡ old.fixed + count_done rs)
    × (new.failures ≡ old.failures ++ undone rs)

done-undone : (rs : List (String × Reply)) → count_done rs + length (undone rs) ≡ length rs
done-undone [] = omega arith
done-undone ((name, done) ∷ rs) = omega (arith, done-undone rs)
done-undone ((name, not_found) ∷ rs) = omega (arith, done-undone rs)
done-undone ((name, failed) ∷ rs) = omega (arith, done-undone rs)

count_route-Covers :
    (name : String) (r : Reply) (rep new : FixRoutesReport) (rs : List (String × Reply))
    → Covers (count_route name r rep) rs new
    → Covers rep ((name, r) ∷ rs) new
unfolding count_route
count_route-Covers name done rep new rs (a, b, c) = (omega arith, omega arith, c)
count_route-Covers name not_found rep new rs (a, b, c) =
    (omega arith, b, c ∙ append_assoc rep.failures (name ∷ []) (undone rs))
count_route-Covers name failed rep new rs (a, b, c) =
    (omega arith, b, c ∙ append_assoc rep.failures (name ∷ []) (undone rs))

-- An endpoint is left out, or it is not.
either-Covers :
    {W : Type 0} (b : Bool) (rep : FixRoutesReport) (us vs : List (String × Reply))
    (x y : FixRoutesReport × W)
    → Covers rep us x.0
    → Covers rep vs y.0
    → Covers rep (if b then us else vs) (if b then x else y).0
either-Covers true rep us vs x y h k = h
either-Covers false rep us vs x y h k = k

module _ (e : Engine) (cfg : Settings) where
  -- The execs in their order: one for each endpoint whose name is not the proxy's, each in the world
  -- that the one before it left.
  abbrev pub execs : List Endpoint → e.World → List (String × Reply)
  execs [] w = []
  execs (ep ∷ eps) w =
      let skipped = execs eps w in
      let (reply, w') = e.route_exec ep.name w in
      let rest = (ep.name, reply) ∷ execs eps w' in
      if str_eq ep.name cfg.proxy_container then skipped else rest

  fix_each-Covers :
      (eps : List Endpoint) (rep : FixRoutesReport) (w : e.World)
      → Covers rep (execs eps w) (fix_each e cfg eps rep w).0
  unfolding fix_each
  fix_each-Covers [] rep w = (omega arith, omega arith, sym (append-nil rep.failures))
  fix_each-Covers (ep ∷ eps) rep w =
      let run = e.route_exec ep.name w in
      either-Covers (str_eq ep.name cfg.proxy_container) rep _ _ (fix_each e cfg eps rep w)
        (fix_each e cfg eps (count_route ep.name run.0 rep) run.1) (fix_each-Covers eps rep w)
        (count_route-Covers ep.name run.0 rep _ _ (fix_each-Covers eps _ run.1))

  -- The report of a pass, for the endpoints that the network inspect listed, from the world it left.
  abbrev pub Accounts : Option (List Endpoint) → e.World → Option FixRoutesReport → Type 0
  Accounts none w none = Unit
  Accounts none w (some rep) = ⊥
  Accounts (some eps) w none = ⊥
  Accounts (some eps) w (some rep) =
      (rep.attempted ≡ length (execs eps w))
      × (rep.fixed ≡ count_done (execs eps w))
      × (rep.failures ≡ undone (execs eps w))
      × (has_failures rep ≡ false ↔ rep.fixed ≡ rep.attempted)

  none-failed :
      (f a : ℕ) (xs : List String) → f + length xs ≡ a → (not (is_empty xs) ≡ false) ↔ (f ≡ a)
  none-failed f a [] h = ((λ x. omega arith), λ x. refl)
  none-failed f a (y ∷ ys) h = ((λ x. absurd cc), λ x. absurd (omega arith))

  Covers→Accounts :
      (eps : List Endpoint) (w : e.World) (rep : FixRoutesReport)
      → Covers no_routes (execs eps w) rep
      → Accounts (some eps) w (some rep)
  unfolding has_failures
  Covers→Accounts eps w rep (a, b, c) = (
    omega arith,
    omega arith,
    c,
    none-failed rep.fixed rep.attempted rep.failures
        (ap (λ l. rep.fixed + length l) c ∙ omega (arith, a, b, done-undone (execs eps w))),
  )

  fix_endpoints-Accounts :
      (o : Option (List Endpoint)) (w : e.World) → Accounts o w (fix_endpoints e cfg o w).0
  unfolding fix_endpoints
  fix_endpoints-Accounts none w = tt
  fix_endpoints-Accounts (some eps) w = Covers→Accounts eps w _ (fix_each-Covers eps no_routes w)

  fix_with-Accounts :
      (b : Bool) (w : e.World)
      → b ≡ true
      → Accounts (e.network_inspect w).0 (e.network_inspect w).1 (fix_with e cfg b w).0
  unfolding fix_with
  fix_with-Accounts false w h = absurd cc
  fix_with-Accounts true w h = fix_endpoints-Accounts (e.network_inspect w).0 _

  -- When there is a client, a pass is reported if the network can be inspected. It makes one exec for
  -- each endpoint but those with the proxy's name, in their order, and counts it as attempted; it
  -- counts as fixed the ones that are answered as done, and lists the containers of all others as
  -- failures, in their order. The report's Err is nil exactly when all attempted routes were fixed.
  pub fix_routes-Accounts :
      (w : e.World)
      → (e.new_client w).0 ≡ true
      → let listed = e.network_inspect (e.new_client w).1 in
        Accounts listed.0 listed.1 (fix_routes e cfg w).0
  unfolding fix_routes
  fix_routes-Accounts w h = fix_with-Accounts (e.new_client w).0 (e.new_client w).1 h
