-- ===== src/Tests/Hysteria.antt =====
-- Runs of the URI code of internal/hysteria2, and its theorems at these runs.
-- "443,5000-6000", "443"
use workspace_cli.Hysteria.Hop.{
  check_item, check_items, contains, cut, digits_value, hop_base_port, in_range, le_port, port_num,
  positive, split, unsigned,
}
use workspace_cli.Hysteria.Hop.Spec.{HopSpec, hop_base_port-HopSpec}
use workspace_cli.Hysteria.Pin.{
  byte_of, decode_pin, decodes, encode_pin, hex_decode, hex_digit, hex_encode, hex_value, is_hex64,
  normalize_pin, without,
}
use workspace_cli.Hysteria.Strip.{
  at_separator, behind, cut_scheme, ends_authority, hopped, span_authority, split_last, strip_host,
  strip_port_hopping, strip_rest, strip_spec, user_and_host, with_front,
}
use workspace_cli.Hysteria.Strip.Authority.{IsStripped, strip_port_hopping-IsStripped}
use workspace_cli.Prelude.{Bytes, [], refl, some, ◌↔◌, ◌∷◌, ◌≡◌}

abbrev spec : Bytes
spec = 52 ∷ 52 ∷ 51 ∷ 44 ∷ 53 ∷ 48 ∷ 48 ∷ 48 ∷ 45 ∷ 54 ∷ 48 ∷ 48 ∷ 48 ∷ []

abbrev base_port : Bytes
base_port = 52 ∷ 52 ∷ 51 ∷ []

-- "hy2://p@h:443,5000-6000?a,b"
abbrev hop_uri : Bytes
hop_uri =
    104 ∷ 121 ∷ 50 ∷ 58 ∷ 47 ∷ 47 ∷ 112 ∷ 64 ∷ 104 ∷ 58 ∷ 52 ∷ 52 ∷ 51 ∷ 44 ∷ 53 ∷ 48 ∷ 48 ∷ 48 ∷ 45
    ∷ 54 ∷ 48 ∷ 48 ∷ 48 ∷ 63 ∷ 97 ∷ 44 ∷ 98 ∷ []

-- "hy2://p@h:443?a,b"
abbrev plain_uri : Bytes
plain_uri =
    104 ∷ 121 ∷ 50 ∷ 58 ∷ 47 ∷ 47 ∷ 112 ∷ 64 ∷ 104 ∷ 58 ∷ 52 ∷ 52 ∷ 51 ∷ 63 ∷ 97 ∷ 44 ∷ 98 ∷ []

-- "443-+6000": the sign that Atoi lets pass
signed_end : hop_base_port (52 ∷ 52 ∷ 51 ∷ 45 ∷ 43 ∷ 54 ∷ 48 ∷ 48 ∷ 48 ∷ []) ≡ some base_port
unfolding hop_base_port check_items check_item le_port port_num in_range positive unsigned
    digits_value contains cut split
signed_end = refl

strip_run : strip_port_hopping hop_uri ≡ hopped plain_uri spec
unfolding strip_port_hopping strip_rest strip_host strip_spec user_and_host split_last behind
    span_authority cut_scheme with_front at_separator ends_authority hop_base_port check_items
    check_item le_port port_num in_range positive unsigned digits_value contains cut split
strip_run = refl

hop_base_port-HopSpec_example : (hop_base_port spec ≡ some base_port) ↔ HopSpec spec base_port
hop_base_port-HopSpec_example = hop_base_port-HopSpec spec base_port

strip_port_hopping-IsStripped_example : IsStripped hop_uri (strip_port_hopping hop_uri)
strip_port_hopping-IsStripped_example = strip_port_hopping-IsStripped hop_uri

-- "AB:AB:" and so on: 32 bytes in upper-case hex, with colons
abbrev colon_pin : Bytes
colon_pin =
    65 ∷ 66 ∷ 58 ∷ 65 ∷ 66 ∷ 58 ∷ 65 ∷ 66 ∷ 58 ∷ 65 ∷ 66 ∷ 58 ∷ 65 ∷ 66 ∷ 58 ∷ 65 ∷ 66 ∷ 58 ∷ 65
    ∷ 66 ∷ 58 ∷ 65 ∷ 66 ∷ 58 ∷ 65 ∷ 66 ∷ 58 ∷ 65 ∷ 66 ∷ 58 ∷ 65 ∷ 66 ∷ 58 ∷ 65 ∷ 66 ∷ 58 ∷ 65 ∷ 66
    ∷ 58 ∷ 65 ∷ 66 ∷ 58 ∷ 65 ∷ 66 ∷ 58 ∷ 65 ∷ 66 ∷ 58 ∷ 65 ∷ 66 ∷ 58 ∷ 65 ∷ 66 ∷ 58 ∷ 65 ∷ 66 ∷ 58
    ∷ 65 ∷ 66 ∷ 58 ∷ 65 ∷ 66 ∷ 58 ∷ 65 ∷ 66 ∷ 58 ∷ 65 ∷ 66 ∷ 58 ∷ 65 ∷ 66 ∷ 58 ∷ 65 ∷ 66 ∷ 58 ∷ 65
    ∷ 66 ∷ 58 ∷ 65 ∷ 66 ∷ 58 ∷ 65 ∷ 66 ∷ 58 ∷ 65 ∷ 66 ∷ 58 ∷ 65 ∷ 66 ∷ 58 ∷ 65 ∷ 66 ∷ 58 ∷ 65 ∷ 66
    ∷ []

pin_run :
    normalize_pin (λ t. t) colon_pin
    ≡ some (
        97 ∷ 98 ∷ 97 ∷ 98 ∷ 97 ∷ 98 ∷ 97 ∷ 98 ∷ 97 ∷ 98 ∷ 97 ∷ 98 ∷ 97 ∷ 98 ∷ 97 ∷ 98 ∷ 97 ∷ 98 ∷ 97
        ∷ 98 ∷ 97 ∷ 98 ∷ 97 ∷ 98 ∷ 97 ∷ 98 ∷ 97 ∷ 98 ∷ 97 ∷ 98 ∷ 97 ∷ 98 ∷ 97 ∷ 98 ∷ 97 ∷ 98 ∷ 97
        ∷ 98 ∷ 97 ∷ 98 ∷ 97 ∷ 98 ∷ 97 ∷ 98 ∷ 97 ∷ 98 ∷ 97 ∷ 98 ∷ 97 ∷ 98 ∷ 97 ∷ 98 ∷ 97 ∷ 98 ∷ 97
        ∷ 98 ∷ 97 ∷ 98 ∷ 97 ∷ 98 ∷ 97 ∷ 98 ∷ 97 ∷ 98 ∷ [])
unfolding normalize_pin encode_pin decode_pin is_hex64 decodes without contains hex_decode byte_of
    hex_value hex_encode hex_digit
pin_run = refl
