-- ===== src/Docker/Check/Evidence.antt =====
-- The checks of `ProxyCheck`, and the replies they rest on.
-- Passed and failed have been seen; a check that saw neither is skipped.
use workspace_cli.Docker.Check.{
  CheckResult, Checks, all_checks, config_check, fail, image_check, pass, proxy_check_of, skip,
  check_pinged, check_with, proxy_check, unreached,
}
use workspace_cli.Docker.Client.{
  Engine, Inspect, Reply, Stat, absent, broken, done, exists, failed, missing, not_found, primary,
  seen, stateless, unreadable,
}
use workspace_cli.Prelude.{Bool, Option, false, none, refl, some, true, ◌&&◌, ◌≡◌, subst, sym}

abbrev pub Config : Stat → CheckResult → Type 0
Config exists r = r ≡ pass
Config missing r = r ≡ fail
Config unreadable r = r ≡ skip

abbrev pub Image : Reply → CheckResult → Type 0
Image done r = r ≡ pass
Image not_found r = r ≡ fail
Image failed r = r ≡ skip

abbrev pub Proxy : Inspect → CheckResult → Type 0
Proxy absent r = r ≡ fail
Proxy (broken late) r = r ≡ skip
Proxy stateless r = ⊥
Proxy (seen s) r = (r.passed ≡ s.running) × (r.skipped ≡ false)

-- The checks that ask the daemon, by whether it was reached.
abbrev pub Asked : (e : Engine) → Bool → e.World → Checks → Type 0
Asked e false w c = (c.docker ≡ fail) × (c.image ≡ skip) × (c.proxy ≡ skip)
Asked e true w c =
    (c.docker ≡ pass)
    × Image (e.image_inspect w).0 c.image
    × Proxy (e.inspect primary (e.image_inspect w).1).0 c.proxy

-- The daemon's calls, in the order of the code.
abbrev pub client_world : (e : Engine) → e.World → e.World
client_world e w = (e.new_client (e.stat_config w).1).1

abbrev pub reached : (e : Engine) → e.World → Bool
reached e w = (e.new_client (e.stat_config w).1).0 && (e.ping (client_world e w)).0

abbrev pub Observed : (e : Engine) → e.World → Option Checks → Type 0
Observed e w none =
    (reached e w ≡ true)
    × ((e.inspect primary (e.image_inspect (e.ping (client_world e w)).1).1).0 ≡ stateless)
Observed e w (some c) =
    Config (e.stat_config w).0 c.config × Asked e (reached e w) (e.ping (client_world e w)).1 c

config_check-Config : (s : Stat) → Config s (config_check s)
unfolding config_check
config_check-Config exists = refl
config_check-Config missing = refl
config_check-Config unreadable = refl

image_check-Image : (r : Reply) → Image r (image_check r)
unfolding image_check
image_check-Image done = refl
image_check-Image not_found = refl
image_check-Image failed = refl

-- With the reply of the inspect.
abbrev Proxied : Inspect → Option CheckResult → Type 0
Proxied r none = r ≡ stateless
Proxied r (some c) = Proxy r c

proxy_check_of-Proxied : (r : Inspect) → Proxied r (proxy_check_of r)
unfolding proxy_check_of
proxy_check_of-Proxied absent = refl
proxy_check_of-Proxied (broken l) = refl
proxy_check_of-Proxied stateless = refl
proxy_check_of-Proxied (seen s) = (refl, refl)

module _ (e : Engine) (w : e.World) where
  -- What is asked of a reached daemon, in the world v.
  abbrev Judged : e.World → Option Checks → Type 0
  Judged v none = (e.inspect primary (e.image_inspect v).1).0 ≡ stateless
  Judged v (some c) = Config (e.stat_config w).0 c.config × Asked e true v c

  all_checks-Judged :
      (v : e.World) (o : Option CheckResult)
      → Proxied (e.inspect primary (e.image_inspect v).1).0 o
      → Judged v
          (all_checks (config_check (e.stat_config w).0) (image_check (e.image_inspect v).0) o)
  unfolding all_checks
  all_checks-Judged v none h = h
  all_checks-Judged v (some c) h =
      (config_check-Config (e.stat_config w).0, (refl, image_check-Image (e.image_inspect v).0, h))

  -- What is observed, when the client and the ping are as given.
  abbrev Seen : Bool → e.World → Option Checks → Type 0
  Seen true v o = Judged v o
  Seen false v none = ⊥
  Seen false v (some c) = Config (e.stat_config w).0 c.config × Asked e false v c

  Seen→Observed :
      (r : Bool) (o : Option Checks)
      → reached e w ≡ r
      → Seen r (e.ping (client_world e w)).1 o
      → Observed e w o
  Seen→Observed true none q h = (q, h)
  Seen→Observed true (some c) q (a, b) =
      (a, subst (λ t. Asked e t (e.ping (client_world e w)).1 c) (sym q) b)
  Seen→Observed false none q h = absurd h
  Seen→Observed false (some c) q (a, b) =
      (a, subst (λ t. Asked e t (e.ping (client_world e w)).1 c) (sym q) b)

  check_pinged-Seen :
      (p : Bool) (v : e.World) → Seen p v (check_pinged e p (config_check (e.stat_config w).0) v).0
  unfolding check_pinged unreached
  check_pinged-Seen false v = (config_check-Config (e.stat_config w).0, (refl, refl, refl))
  check_pinged-Seen true v =
      all_checks-Judged v (proxy_check_of (e.inspect primary (e.image_inspect v).1).0)
        (proxy_check_of-Proxied (e.inspect primary (e.image_inspect v).1).0)

  check_with-Seen :
      (c : Bool) (v : e.World)
      → Seen
          (c && (e.ping v).0)
          (e.ping v).1
          (check_with e c (config_check (e.stat_config w).0) v).0
  unfolding check_with unreached
  check_with-Seen false v = (config_check-Config (e.stat_config w).0, (refl, refl, refl))
  check_with-Seen true v = check_pinged-Seen (e.ping v).0 (e.ping v).1

  -- A check passes or fails only on what it observed: the config on the stat, whatever the daemon
  -- does; Docker on whether there is a client and the ping is answered; the image and the proxy on
  -- their inspects, and they are skipped when the daemon is not reached. A stat or an inspect that
  -- cannot decide is skipped. There is no result exactly for an inspect's reply without a state,
  -- on which the code panics.
  pub proxy_check-Observed : Observed e w (proxy_check e w).0
  unfolding proxy_check
  proxy_check-Observed =
      Seen→Observed (reached e w) (proxy_check e w).0 refl
        (check_with-Seen (e.new_client (e.stat_config w).1).0 (client_world e w))
