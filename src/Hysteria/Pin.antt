-- ===== src/Hysteria/Pin.antt =====
-- `NormalizePinSHA256` of internal/hysteria2/pin.go, with the decoders of encoding/hex and
-- encoding/base64 that it uses. What strings.TrimSpace makes of a text is an argument.
pub mod Decoded
pub mod Normal
use workspace_cli.Hysteria.Hop.{contains}
use workspace_cli.Prelude.{
  Bool, Bytes, Option, [], false, if◌then◌else◌, is_empty, leb, length, ltb, none, some, true, ℕ,
  ◌%◌, ◌&&◌, ◌*◌, ◌+◌, ◌-◌, ◌/◌, ◌==◌, ◌||◌, ◌∷◌,
}

unfoldable pub hex_value : ℕ → Option ℕ
hex_value c =
    if leb 48 c && leb c 57
    then some (c - 48)
    else if leb 97 c && leb c 102
    then some (c - 87)
    else if leb 65 c && leb c 70
    then some (c - 55)
    else none

unfoldable pub byte_of : Option ℕ → Option ℕ → Option Bytes → Option Bytes
byte_of (some hi) (some lo) (some bs) = some ((hi * 16 + lo) ∷ bs)
byte_of none lo bs = none
byte_of (some hi) none bs = none
byte_of (some hi) (some lo) none = none

-- `hex.DecodeString`; none for an odd length and for a character that is no digit.
unfoldable pub hex_decode : Bytes → Option Bytes
unfolding byte_of hex_value
hex_decode [] = some []
hex_decode (a ∷ []) = none
hex_decode (a ∷ b ∷ cs) = byte_of (hex_value a) (hex_value b) (hex_decode cs)

unfoldable pub hex_digit : ℕ → ℕ
hex_digit n = if ltb n 10 then n + 48 else n + 87

-- `hex.EncodeToString`
unfoldable pub hex_encode : Bytes → Bytes
unfolding hex_digit
hex_encode [] = []
hex_encode (b ∷ bs) = hex_digit (b / 16) ∷ hex_digit (b % 16) ∷ hex_encode bs

unfoldable pub base64_value : ℕ → Option ℕ
base64_value c =
    if leb 65 c && leb c 90
    then some (c - 65)
    else if leb 97 c && leb c 122
    then some (c - 71)
    else if leb 48 c && leb c 57
    then some (c + 4)
    else if c == 43
    then some 62
    else if c == 47
    then some 63
    else none

-- Four digits, three digits and two digits; a byte keeps the low eight bits.
unfoldable pub three_bytes : Option ℕ → Option ℕ → Option ℕ → Option ℕ → Option Bytes → Option Bytes
three_bytes (some a) (some b) (some c) (some d) (some bs) =
    some ((a * 4 + b / 16) % 256 ∷ (b * 16 + c / 4) % 256 ∷ (c * 64 + d) % 256 ∷ bs)
three_bytes _ _ _ _ _ = none

unfoldable pub two_bytes : Option ℕ → Option ℕ → Option ℕ → Option Bytes
two_bytes (some a) (some b) (some c) = some ((a * 4 + b / 16) % 256 ∷ (b * 16 + c / 4) % 256 ∷ [])
two_bytes _ _ _ = none

unfoldable pub one_byte : Option ℕ → Option ℕ → Option Bytes
one_byte (some a) (some b) = some ((a * 4 + b / 16) % 256 ∷ [])
one_byte _ _ = none

-- The padding stands in the last four characters only.
unfoldable pub decode_groups : Bytes → Option Bytes
unfolding three_bytes two_bytes one_byte base64_value
decode_groups [] = some []
decode_groups (a ∷ []) = none
decode_groups (a ∷ b ∷ []) = none
decode_groups (a ∷ b ∷ c ∷ []) = none
decode_groups (a ∷ b ∷ c ∷ d ∷ cs) =
    let rest = decode_groups cs in
    if is_empty cs && d == 61 && c == 61
    then one_byte (base64_value a) (base64_value b)
    else if is_empty cs && d == 61
    then two_bytes (base64_value a) (base64_value b) (base64_value c)
    else three_bytes (base64_value a) (base64_value b) (base64_value c) (base64_value d) rest

unfoldable pub without : (ℕ → Bool) → Bytes → Bytes
without p [] = []
without p (c ∷ cs) = let rest = without p cs in if p c then rest else c ∷ rest

-- `base64.StdEncoding.DecodeString`, which skips line breaks.
unfoldable pub base64_decode : Bytes → Option Bytes
unfolding decode_groups without
base64_decode s = decode_groups (without (λ c. c == 10 || c == 13) s)

unfoldable pub decodes : Option Bytes → Bool
decodes none = false
decodes (some bs) = true

unfoldable pub is_hex64 : Bytes → Bool
unfolding decodes
is_hex64 s = length s == 64 && decodes (hex_decode s)

unfoldable pub encode_pin : Option Bytes → Option Bytes
unfolding hex_encode
encode_pin none = none
encode_pin (some bs) = if length bs == 32 then some (hex_encode bs) else none

unfoldable pub decode_pin : Bytes → Option Bytes
unfolding is_hex64 without
decode_pin pin =
    if contains 58 pin || is_hex64 pin
    then hex_decode (without (λ c. c == 58) pin)
    else base64_decode pin

-- none for an error.
unfoldable pub normalize_pin : (Bytes → Bytes) → Bytes → Option Bytes
unfolding encode_pin decode_pin
normalize_pin trimmed pin =
    let text = trimmed pin in if is_empty text then some [] else encode_pin (decode_pin text)
