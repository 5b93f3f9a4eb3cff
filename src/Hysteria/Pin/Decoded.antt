-- ===== src/Hysteria/Pin/Decoded.antt =====
-- What the decoders of a pin yield, and hex digits read back.
-- A digit, or one of a to f.
use mathlib.Core.Path.{ap₂}
use native.Mathlib.Nat.{mod-lt}
use workspace_cli.Hysteria.Hop.{contains}
use workspace_cli.Hysteria.Pin.{
  base64_decode, base64_value, byte_of, decode_groups, decode_pin, hex_decode, hex_digit,
  hex_encode, hex_value, is_hex64, one_byte, three_bytes, two_bytes, without,
}
use workspace_cli.Prelude.{
  All, Bytes, Option, [], ap, arith, false, if_intro, is_empty, leb, length, none, refl, some, true,
  ℕ, ◌%◌, ◌&&◌, ◌*◌, ◌+◌, ◌/◌, ◌<◌, ◌==◌, ◌||◌, ◌∙◌, ◌∷◌, ◌≡◌, ◌≤◌, ◌⊎◌,
}

abbrev pub LowerHex : ℕ → Type 0
LowerHex c = (48 ≤ c × c ≤ 57) ⊎ (97 ≤ c × c ≤ 102)

abbrev pub Byte : ℕ → Type 0
Byte b = b < 256

hex_value-hex_digit : (n : ℕ) → n < 16 → hex_value (hex_digit n) ≡ some n
unfolding hex_value hex_digit
hex_value-hex_digit n h = ground arith

hex_digit-LowerHex : (n : ℕ) → n < 16 → LowerHex (hex_digit n)
unfolding hex_digit
hex_digit-LowerHex n h = ground arith

high : (b : ℕ) → b < 256 → b / 16 < 16
high b h = omega arith

whole : (b : ℕ) → (b / 16) * 16 + b % 16 ≡ b
whole b = omega arith

pub hex_decode-hex_encode : (bs : Bytes) → All Byte bs → hex_decode (hex_encode bs) ≡ some bs
unfolding hex_decode hex_encode byte_of
hex_decode-hex_encode [] a = refl
hex_decode-hex_encode (b ∷ bs) (h, a) =
    ap₂ (λ x y. byte_of x y (hex_decode (hex_encode bs))) (hex_value-hex_digit (b / 16) (high b h))
      (hex_value-hex_digit (b % 16) (mod-lt b (omega arith)))
    ∙ ap (byte_of (some (b / 16)) (some (b % 16))) (hex_decode-hex_encode bs a)
    ∙ ap (λ x. some (x ∷ bs)) (whole b)

pub length-hex_encode : (bs : Bytes) → length (hex_encode bs) ≡ 2 * length bs
unfolding hex_encode
length-hex_encode [] = refl
length-hex_encode (b ∷ bs) = let h = length-hex_encode bs in omega arith

pub hex_encode-LowerHex : (bs : Bytes) → All Byte bs → All LowerHex (hex_encode bs)
unfolding hex_encode
hex_encode-LowerHex [] a = tt
hex_encode-LowerHex (b ∷ bs) (h, a) =
    let rest = hex_encode-LowerHex bs a in
    (
      hex_digit-LowerHex (b / 16) (high b h),
      (hex_digit-LowerHex (b % 16) (mod-lt b (omega arith)), rest),
    )

-- What a decoder yields are bytes.
abbrev pub Bounded : (P : ℕ → Type 0) → Option Bytes → Type 0
Bounded P none = Unit
Bounded P (some bs) = All P bs

abbrev Nibble : Option ℕ → Type 0
Nibble none = Unit
Nibble (some n) = n < 16

hex_value-Nibble : (c : ℕ) → Nibble (hex_value c)
unfolding hex_value
hex_value-Nibble c =
    if_intro Nibble (leb 48 c && leb c 57) _ _ (λ h. ground arith)
      λ _.
        if_intro Nibble (leb 97 c && leb c 102) _ _ (λ h. ground arith)
          λ _. if_intro Nibble (leb 65 c && leb c 70) _ _ (λ h. ground arith) (λ _. tt)

byte_of-Bounded :
    (hi lo : Option ℕ) (bs : Option Bytes)
    → Nibble hi
    → Nibble lo
    → Bounded Byte bs
    → Bounded Byte (byte_of hi lo bs)
unfolding byte_of
byte_of-Bounded none lo bs x y z = tt
byte_of-Bounded (some hi) none bs x y z = tt
byte_of-Bounded (some hi) (some lo) none x y z = tt
byte_of-Bounded (some hi) (some lo) (some bs) x y z = (omega arith, z)

hex_decode-Bounded : (s : Bytes) → Bounded Byte (hex_decode s)
unfolding hex_decode
hex_decode-Bounded [] = tt
hex_decode-Bounded (a ∷ []) = tt
hex_decode-Bounded (a ∷ b ∷ cs) =
    byte_of-Bounded (hex_value a) (hex_value b) (hex_decode cs) (hex_value-Nibble a)
      (hex_value-Nibble b) (hex_decode-Bounded cs)

low_byte : (n : ℕ) → n % 256 < 256
low_byte n = mod-lt n (omega arith)

three_bytes-Bounded :
    (a b c d : Option ℕ) (bs : Option Bytes)
    → Bounded Byte bs
    → Bounded Byte (three_bytes a b c d bs)
unfolding three_bytes
three_bytes-Bounded (some a) (some b) (some c) (some d) (some bs) h =
    (low_byte (a * 4 + b / 16), (low_byte (b * 16 + c / 4), (low_byte (c * 64 + d), h)))
three_bytes-Bounded none b c d bs h = tt
three_bytes-Bounded (some a) none c d bs h = tt
three_bytes-Bounded (some a) (some b) none d bs h = tt
three_bytes-Bounded (some a) (some b) (some c) none bs h = tt
three_bytes-Bounded (some a) (some b) (some c) (some d) none h = tt

two_bytes-Bounded : (a b c : Option ℕ) → Bounded Byte (two_bytes a b c)
unfolding two_bytes
two_bytes-Bounded (some a) (some b) (some c) =
    (low_byte (a * 4 + b / 16), (low_byte (b * 16 + c / 4), tt))
two_bytes-Bounded none b c = tt
two_bytes-Bounded (some a) none c = tt
two_bytes-Bounded (some a) (some b) none = tt

one_byte-Bounded : (a b : Option ℕ) → Bounded Byte (one_byte a b)
unfolding one_byte
one_byte-Bounded (some a) (some b) = (low_byte (a * 4 + b / 16), tt)
one_byte-Bounded none b = tt
one_byte-Bounded (some a) none = tt

decode_groups-Bounded : (s : Bytes) → Bounded Byte (decode_groups s)
unfolding decode_groups
decode_groups-Bounded [] = tt
decode_groups-Bounded (a ∷ []) = tt
decode_groups-Bounded (a ∷ b ∷ []) = tt
decode_groups-Bounded (a ∷ b ∷ c ∷ []) = tt
decode_groups-Bounded (a ∷ b ∷ c ∷ d ∷ cs) =
    if_intro (Bounded Byte) (is_empty cs && d == 61 && c == 61) _ _
      (λ _. one_byte-Bounded (base64_value a) (base64_value b))
      λ _.
        if_intro (Bounded Byte) (is_empty cs && d == 61) _ _
          (λ _. two_bytes-Bounded (base64_value a) (base64_value b) (base64_value c))
          (λ _.
            three_bytes-Bounded (base64_value a) (base64_value b) (base64_value c) (base64_value d)
              (decode_groups cs) (decode_groups-Bounded cs))

pub decode_pin-Bounded : (s : Bytes) → Bounded Byte (decode_pin s)
unfolding decode_pin base64_decode
decode_pin-Bounded s =
    if_intro (Bounded Byte) (contains 58 s || is_hex64 s) _ _
      (λ _. hex_decode-Bounded (without (λ c. c == 58) s))
      (λ _. decode_groups-Bounded (without (λ c. c == 10 || c == 13) s))

pub not-colon : (c : ℕ) → LowerHex c → (c == 58) ≡ false
not-colon c h = ground arith

pub not-empty : (q : Bytes) → length q ≡ 64 → is_empty q ≡ false
not-empty [] h = absurd (omega arith)
not-empty (c ∷ cs) h = refl

pub empty-nil : (q : Bytes) → is_empty q ≡ true → q ≡ []
empty-nil [] h = refl
empty-nil (c ∷ cs) h = absurd cc
