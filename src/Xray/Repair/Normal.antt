-- ===== src/Xray/Repair/Normal.antt =====
-- The repair of a repaired outbound.
pub mod Again
use workspace_cli.Hysteria.Pin.{decode_pin, encode_pin, hex_encode, normalize_pin}
use workspace_cli.Hysteria.Pin.Decoded.{
  Bounded, Byte, LowerHex, decode_pin-Bounded, hex_encode-LowerHex, length-hex_encode,
}
use workspace_cli.Prelude.{
  [], ==_iff, All, Bool-cases, Bytes, Option, ap, arith, both_iff, if_false, if_intro, if_true, inl,
  inr, is_empty, length, none, or_true, refl, some, subst, sym, text_eq, true, ◌&&◌, ◌==◌, ◌||◌,
  ◌∙◌, ◌∷◌, ◌≡◌, List, some_inj,
}
use workspace_cli.Xray.Repair.{
  all_lower_hex, fix_pin, fix_tls, lower_hex64, pin_key, repair_h2, set_pin, set_tls, string_of,
  Change,
}
use workspace_cli.Xrayconf.Values.{
  Fields, Json, arr, bool, bytes, get, get-put, get-remove, null, num, obj, put, str,
}

all_lower_hex-LowerHex : (q : Bytes) → All LowerHex q → all_lower_hex q ≡ true
unfolding all_lower_hex
all_lower_hex-LowerHex [] h = refl
all_lower_hex-LowerHex (c ∷ cs) (h, r) = ground (arith, all_lower_hex-LowerHex cs r)

module _ (trimmed : Bytes → Bytes) where
  encode_pin-fixed :
      (o : Option Bytes) (q : Bytes) → Bounded Byte o → encode_pin o ≡ some q → lower_hex64 q ≡ true
  unfolding encode_pin lower_hex64
  encode_pin-fixed none q b h = absurd cc
  encode_pin-fixed (some bs) q b h = elim (Bool-cases (length bs == 32)) [
    | inl e ↦
        let p : hex_encode bs ≡ q =
          some_inj (sym (if_true (length bs == 32) (some (hex_encode bs)) none e) ∙ h) in
        subst (λ x. (length x == 64 && all_lower_hex x) ≡ true) p
          ((both_iff (length (hex_encode bs) == 64) (all_lower_hex (hex_encode bs))).1 (
            (==_iff (length (hex_encode bs)) 64).1
                (omega (arith, length-hex_encode bs, (==_iff (length bs) 32).0 e)),
            all_lower_hex-LowerHex (hex_encode bs) (hex_encode-LowerHex bs b),
          ))
    | inr e ↦ absurd cc (sym (if_false (length bs == 32) (some (hex_encode bs)) none e) ∙ h)
  ]

  -- A pin that is not fixed again.
  abbrev pub Fixed : Bytes → Type 0
  Fixed q = (is_empty q || lower_hex64 q) ≡ true

  pub normalize_pin-Fixed : (pin q : Bytes) → normalize_pin trimmed pin ≡ some q → Fixed q
  unfolding normalize_pin
  normalize_pin-Fixed pin q h = elim (Bool-cases (is_empty (trimmed pin))) [
    | inl e ↦
        let p : [] ≡ q = some_inj (
          sym (if_true (is_empty (trimmed pin)) (some []) (encode_pin (decode_pin (trimmed pin))) e)
          ∙ h) in
        subst Fixed p refl
    | inr e ↦
        let p =
          sym
            (if_false (is_empty (trimmed pin)) (some []) (encode_pin (decode_pin (trimmed pin))) e)
          ∙ h in
        ap (λ b. is_empty q || b)
          (encode_pin-fixed (decode_pin (trimmed pin)) q (decode_pin-Bounded (trimmed pin)) p)
        ∙ or_true (is_empty q)
  ]

  fix_pin-Fixed : (v : Option Json) (q : Bytes) → fix_pin trimmed v ≡ some q → Fixed q
  unfolding fix_pin
  fix_pin-Fixed none q h = absurd cc
  fix_pin-Fixed (some null) q h = absurd cc
  fix_pin-Fixed (some (bool b)) q h = absurd cc
  fix_pin-Fixed (some (num n)) q h = absurd cc
  fix_pin-Fixed (some (arr xs)) q h = absurd cc
  fix_pin-Fixed (some (obj m)) q h = absurd cc
  fix_pin-Fixed (some (str v)) q h = elim (Bool-cases (is_empty v || lower_hex64 v)) [
    | inl e ↦
        absurd cc (sym (if_true (is_empty v || lower_hex64 v) none (normalize_pin trimmed v) e) ∙ h)
    | inr e ↦
        normalize_pin-Fixed v q
          (sym (if_false (is_empty v || lower_hex64 v) none (normalize_pin trimmed v) e) ∙ h)
  ]

  pub fix_pin-of_Fixed : (q : Bytes) → Fixed q → fix_pin trimmed (some (str q)) ≡ none
  unfolding fix_pin
  fix_pin-of_Fixed q h = if_true (is_empty q || lower_hex64 q) none (normalize_pin trimmed q) h

  set_pin-settles :
      (tls : Fields) (o : Option Bytes) (tls' : Fields)
      → ((q : Bytes) → o ≡ some q → Fixed q)
      → set_pin tls o ≡ some tls'
      → fix_tls trimmed (some (obj tls')) ≡ none
  unfolding set_pin fix_tls
  set_pin-settles tls none tls' f h = absurd cc
  set_pin-settles tls (some q) tls' f h =
      subst (λ m. set_pin m (fix_pin trimmed (get pin_key m)) ≡ none) (some_inj h)
        (ap (set_pin (put pin_key (str q) tls)) (
          ap (fix_pin trimmed) (get-put pin_key pin_key (str q) tls)
          ∙ fix_pin-of_Fixed q (f q refl)))

  fix_tls-settles :
      (v : Option Json) (tls : Fields)
      → fix_tls trimmed v ≡ some tls
      → fix_tls trimmed (some (obj tls)) ≡ none
  unfolding fix_tls
  fix_tls-settles none tls h = absurd cc
  fix_tls-settles (some null) tls h = absurd cc
  fix_tls-settles (some (bool b)) tls h = absurd cc
  fix_tls-settles (some (num n)) tls h = absurd cc
  fix_tls-settles (some (arr xs)) tls h = absurd cc
  fix_tls-settles (some (str s)) tls h = absurd cc
  fix_tls-settles (some (obj m)) tls h =
      set_pin-settles m (fix_pin trimmed (get pin_key m)) tls
        (λ q e. fix_pin-Fixed (get pin_key m) q e) h

  pub set_tls-settles :
      (ss : Fields) (o : Option Fields)
      → o ≡ fix_tls trimmed (get "tlsSettings" ss)
      → fix_tls trimmed (get "tlsSettings" (set_tls ss o).0) ≡ none
  unfolding set_tls
  set_tls-settles ss none h = sym h
  set_tls-settles ss (some tls) h =
      ap (fix_tls trimmed) (get-put "tlsSettings" "tlsSettings" (obj tls) ss)
      ∙ fix_tls-settles (get "tlsSettings" ss) tls (sym h)

-- What the repair of the transport reads, and leaves.
pub repair_h2-tls : (ss : Fields) → get "tlsSettings" (repair_h2 ss).0 ≡ get "tlsSettings" ss
unfolding repair_h2
repair_h2-tls ss =
    if_intro {A = Fields × List Change} (λ r. get "tlsSettings" r.0 ≡ get "tlsSettings" ss)
      (text_eq (string_of (get "network" ss)) (bytes "h2")) _ (ss, [])
      (λ e. simp (get-remove, get-put)) (λ e. refl)
