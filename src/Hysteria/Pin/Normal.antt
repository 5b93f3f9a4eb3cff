-- ===== src/Hysteria/Pin/Normal.antt =====
-- The normal form of a pin.
-- Trimming keeps a text without spaces.
use workspace_cli.Hysteria.Pin.{decode_pin, hex_decode, normalize_pin}
use workspace_cli.Hysteria.Pin.Decoded.{LowerHex}
use workspace_cli.Prelude.{All, Bytes, Option, [], length, none, some, ◌≡◌, ◌≢◌, ◌⊎◌}

module _ (trimmed : Bytes → Bytes) (keeps : (t : Bytes) → All LowerHex t → trimmed t ≡ t) where
  -- What a pin is normalised to.
  abbrev pub IsNormal : Bytes → Option Bytes → Type 0
  IsNormal pin none = ((bs : Bytes) → decode_pin (trimmed pin) ≡ some bs → length bs ≢ 32)
  IsNormal pin (some q) =
      ((q ≡ []) × (trimmed pin ≡ []))
      ⊎ ((bs : Bytes) × (decode_pin (trimmed pin) ≡ some bs)
          × (length bs ≡ 32)
          × (hex_decode q ≡ some bs)
          × (length q ≡ 64)
          × All LowerHex q
          × (normalize_pin trimmed q ≡ some q))
