-- ===== src/Tests/Diagnose.antt =====
-- The output of `ip route show default`, and the theorem of internal/docker/diagnose.go at one.
use workspace_cli.Docker.Diagnose.{
  Runes, classify_route_protection, default_route_of, lines, onto_first, route_protected,
  route_unprotected, split_at,
}
use workspace_cli.Docker.Diagnose.Gateway.{RoutesVia, classify_route_protection-RoutesVia}
use workspace_cli.Prelude.{[], Bool, false, leb, refl, some, ◌&&◌, ◌↔◌, ◌∷◌, ◌≡◌, ◌≢◌}

-- "default via 9"
abbrev routed : Runes
routed = 100 ∷ 101 ∷ 102 ∷ 97 ∷ 117 ∷ 108 ∷ 116 ∷ 32 ∷ 118 ∷ 105 ∷ 97 ∷ 32 ∷ 57 ∷ 10 ∷ []

lines-routed :
    lines routed
    ≡ (100 ∷ 101 ∷ 102 ∷ 97 ∷ 117 ∷ 108 ∷ 116 ∷ 32 ∷ 118 ∷ 105 ∷ 97 ∷ 32 ∷ 57 ∷ []) ∷ [] ∷ []
unfolding lines split_at onto_first
lines-routed = refl

-- Stands for net.ParseIP: texts that start with a digit.
abbrev digit_first : Runes → Bool
digit_first [] = false
digit_first (r ∷ rs) = leb 48 r && leb r 57

classify_route_protection-RoutesVia_example :
    ((classify_route_protection (default_route_of digit_first (some routed)) (57 ∷ [])
        ≡ route_protected)
      ↔ RoutesVia digit_first (some routed) (57 ∷ []))
    × ((classify_route_protection (default_route_of digit_first (some routed)) (57 ∷ [])
          ≡ route_unprotected)
        ↔ ((ip : Runes) × RoutesVia digit_first (some routed) ip × (ip ≢ 57 ∷ [])))
classify_route_protection-RoutesVia_example =
    classify_route_protection-RoutesVia digit_first (some routed) (57 ∷ [])
