-- ===== src/Docker/Diagnose.antt =====
-- `parseDefaultRouteVia` and `classifyRouteProtection` of internal/docker/diagnose.go. A text is a
-- list of runes. What `ip route show default` prints in the container is an argument, none when the
-- exec fails.
pub mod Gateway
use workspace_cli.Prelude.{
  [], Bool, List, Option, if◌then◌else◌, leb, none, some, text_eq, ℕ, ◌&&◌, ◌==◌, ◌||◌, ◌∷◌,
}

abbrev pub Runes : Type 0
Runes = List ℕ

-- unicode.IsSpace
unfoldable pub is_space : ℕ → Bool
is_space r =
    (leb 9 r && leb r 13)
    || r == 32
    || r == 133
    || r == 160
    || r == 5760
    || (leb 8192 r && leb r 8202)
    || r == 8232
    || r == 8233
    || r == 8239
    || r == 8287
    || r == 12288

-- A rune in front of the first part.
unfoldable pub onto_first : ℕ → List Runes → List Runes
onto_first r [] = (r ∷ []) ∷ []
onto_first r (p ∷ ps) = (r ∷ p) ∷ ps

-- strings.Split at the runes of a kind; one part more than there are such runes
unfoldable pub split_at : (ℕ → Bool) → Runes → List Runes
unfolding onto_first
split_at at [] = [] ∷ []
split_at at (r ∷ rs) = let rest = split_at at rs in if at r then [] ∷ rest else onto_first r rest

unfoldable pub drop_empty : List Runes → List Runes
drop_empty [] = []
drop_empty ([] ∷ ps) = drop_empty ps
drop_empty ((r ∷ p) ∷ ps) = (r ∷ p) ∷ drop_empty ps

-- strings.Fields
unfoldable pub fields_of : Runes → List Runes
unfolding split_at is_space drop_empty
fields_of line = drop_empty (split_at is_space line)

unfoldable pub lines : Runes → List Runes
unfolding split_at
lines out = split_at (λ r. r == 10) out

-- "via"
abbrev pub via_word : Runes
via_word = 118 ∷ 105 ∷ 97 ∷ []

-- The inner loop, over one line's fields.
unfoldable pub via_of : List Runes → Option Runes
via_of [] = none
via_of (f ∷ []) = none
via_of (f ∷ g ∷ fs) = let rest = via_of (g ∷ fs) in if text_eq f via_word then some g else rest

unfoldable pub or_else : Option Runes → Option Runes → Option Runes
or_else (some v) o = some v
or_else none o = o

-- The outer loop, over the lines.
unfoldable pub first_via : List Runes → Option Runes
unfolding via_of or_else
first_via [] = none
first_via (l ∷ ls) = or_else (via_of (fields_of l)) (first_via ls)

pub data RouteVerdict : Type 0 where
  route_unknown route_protected route_unprotected : RouteVerdict

-- `is_ip` is whether net.ParseIP accepts the text.
module _ (is_ip : Runes → Bool) where
  unfoldable pub checked : Option Runes → Option Runes
  checked none = none
  checked (some ip) = if is_ip ip then some ip else none

  -- none for both errors
  unfoldable pub parse_default_route_via : Runes → Option Runes
  unfolding checked first_via
  parse_default_route_via out = checked (first_via (lines out))

  unfoldable pub default_route_of : Option Runes → Option Runes
  unfolding parse_default_route_via
  default_route_of none = none
  default_route_of (some out) = parse_default_route_via out

-- none for a lookup's error
unfoldable pub classify_route_protection : Option Runes → Runes → RouteVerdict
classify_route_protection none proxy_ip = route_unknown
classify_route_protection (some via) proxy_ip =
    if text_eq via proxy_ip then route_protected else route_unprotected
