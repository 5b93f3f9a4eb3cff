-- ===== src/Hysteria/Strip.antt =====
-- `stripPortHopping` of internal/hysteria2/parser.go: the base port in place of a hop spec.
pub mod Cuts
pub mod Authority
use workspace_cli.Hysteria.Hop.{hop_base_port}
use workspace_cli.Prelude.{
  Bool, Bytes, Option, [], drop, false, if◌then◌else◌, none, some, ℕ, ◌&&◌, ◌++◌, ◌==◌, ◌||◌, ◌∷◌,
}

-- The authority ends at '/', '?' or '#'.
unfoldable pub ends_authority : ℕ → Bool
ends_authority c = c == 47 || c == 63 || c == 35

-- At "://"
unfoldable pub at_separator : Bytes → Bool
at_separator (a ∷ b ∷ c ∷ cs) = a == 58 && b == 47 && c == 47
at_separator (a ∷ b ∷ []) = false
at_separator (a ∷ []) = false
at_separator [] = false

unfoldable pub with_front : ℕ → Option (Bytes × Bytes) → Option (Bytes × Bytes)
with_front c none = none
with_front c (some (x, y)) = some (c ∷ x, y)

-- Up to the first "://" and with it, and the rest.
unfoldable pub cut_scheme : Bytes → Option (Bytes × Bytes)
unfolding with_front
cut_scheme [] = none
cut_scheme (c ∷ cs) =
    let later = with_front c (cut_scheme cs) in
    if at_separator (c ∷ cs) then some (58 ∷ 47 ∷ 47 ∷ [], drop 2 cs) else later

unfoldable pub span_authority : Bytes → Bytes × Bytes
span_authority [] = ([], [])
span_authority (c ∷ cs) =
    let (authority, tail) = span_authority cs in
    if ends_authority c then ([], c ∷ cs) else (c ∷ authority, tail)

unfoldable pub behind : ℕ → Bytes → ℕ → Option (Bytes × Bytes) → Option (Bytes × Bytes)
behind b cs c (some (x, y)) = some (c ∷ x, y)
behind b cs c none = if c == b then some ([], cs) else none

-- At the last of a byte (`strings.LastIndex`): the text before it, and behind it.
unfoldable pub split_last : ℕ → Bytes → Option (Bytes × Bytes)
unfolding behind
split_last b [] = none
split_last b (c ∷ cs) = behind b cs c (split_last b cs)

-- The userinfo, with its '@', and the host with its port.
unfoldable pub user_and_host : Bytes → Option (Bytes × Bytes) → Bytes × Bytes
user_and_host authority none = ([], authority)
user_and_host authority (some (user, host)) = (user ++ 64 ∷ [], host)

pub data Stripped : Type 0 where
  unchanged : Stripped
  -- the normalized URI, and the full spec
  hopped : Bytes → Bytes → Stripped

unfoldable pub strip_spec : Bytes → Bytes → Bytes → Option Bytes → Stripped
strip_spec front spec tail none = unchanged
strip_spec front spec tail (some base_port) = hopped (front ++ base_port ++ tail) spec

unfoldable pub strip_host : Bytes → Bytes → Option (Bytes × Bytes) → Stripped
unfolding strip_spec
strip_host front tail none = unchanged
strip_host front tail (some (host, spec)) =
    strip_spec (front ++ host ++ 58 ∷ []) spec tail (hop_base_port spec)

unfoldable pub strip_rest : Option (Bytes × Bytes) → Stripped
unfolding strip_host
strip_rest none = unchanged
strip_rest (some (head, rest)) =
    let (authority, tail) = span_authority rest in
    let (user, host) = user_and_host authority (split_last 64 authority) in
    strip_host (head ++ user) tail (split_last 58 host)

unfoldable pub strip_port_hopping : Bytes → Stripped
unfolding strip_rest
strip_port_hopping uri = strip_rest (cut_scheme uri)
