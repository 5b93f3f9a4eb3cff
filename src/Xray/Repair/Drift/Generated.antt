-- ===== src/Xray/Repair/Drift/Generated.antt =====
-- The repair of a configuration that is generated now.
use workspace_cli.Hysteria.Outbound.{
  HysteriaConfig, hysteria_config, hysteria_outbound, put_text, salamander, stream_members, texts,
  tls_members,
}
use workspace_cli.Hysteria.Pin.{normalize_pin}
use workspace_cli.Prelude.{
  [], Bytes, List, String, ap, if_intro, inr, is_empty, none, refl, some, text_eq, text_eq_other,
  true, ◌||◌, ◌∙◌, ◌∷◌, ◌≡◌,
}
use workspace_cli.Vless.{VlessConfig, build_outbound, build_stream_settings, generate_config}
use workspace_cli.Xray.Repair.{
  Change, Reading, fix_pin, fix_tls, lower_hex64, pin_key, repair_config, repair_h2,
  repair_outbound, set_pin, string_of,
}
use workspace_cli.Xray.Repair.Drift.{build_stream_settings-Settled}
use workspace_cli.Xray.Repair.Drift.Legacy.{legacy_stream, over_h2, repair_h2-over_h2}
use workspace_cli.Xray.Repair.Normal.{fix_pin-of_Fixed, normalize_pin-Fixed}
use workspace_cli.Xray.Repair.Normal.Again.{Calm-Settled, Settled}
use workspace_cli.Xray.Repair.Safety.{Stable-Calm, Stable-repair_each}
use workspace_cli.Xrayconf.{Outbound, assemble_config, direct_outbound}
use workspace_cli.Xrayconf.Values.{Fields, arr, bytes, end, field, get, get-put, obj, put, str}

-- The outbound of a hysteria2 URI.
module _ (trimmed : Bytes → Bytes) (cfg : HysteriaConfig)
    (fixed : (is_empty cfg.pin_sha256 || lower_hex64 cfg.pin_sha256) ≡ true) where
  tls_members-fixed : fix_tls trimmed (some (obj (tls_members cfg))) ≡ none
  unfolding fix_tls tls_members put_text get fix_pin set_pin
  tls_members-fixed =
      let base =
        field "serverName" (str cfg.sni)
          (field "alpn" (arr (texts cfg.alpn)) (field "fingerprint" (str cfg.fingerprint) end)) in
      if_intro (λ m. fix_tls trimmed (some (obj m)) ≡ none) (is_empty cfg.pin_sha256) _ _
        (λ e. refl)
        (λ e.
          ap (λ v. set_pin (put pin_key (str cfg.pin_sha256) base) (fix_pin trimmed v))
            (get-put pin_key pin_key (str cfg.pin_sha256) base)
          ∙ ap (set_pin (put pin_key (str cfg.pin_sha256) base))
              (fix_pin-of_Fixed trimmed cfg.pin_sha256 fixed))

  stream_members-Settled : Settled trimmed (stream_members cfg)
  unfolding stream_members get string_of
  stream_members-Settled =
      if_intro (Settled trimmed) (text_eq cfg.obfs (bytes "salamander")) _ _
        (λ e. (
          ap (fix_tls trimmed) (get-put "finalmask" "tlsSettings" (salamander cfg) _)
              ∙ tls_members-fixed,
          ap (λ v. text_eq (string_of v) (bytes "h2"))
                (get-put "finalmask" "network" (salamander cfg) _)
              ∙ text_eq_other (bytes "hysteria") (bytes "h2") (λ z. cc),
        ))
        (λ e. (tls_members-fixed, text_eq_other (bytes "hysteria") (bytes "h2") (λ z. cc)))

-- A configuration around an outbound with settled members.
module _ (lib : Reading) where
  assemble_config-Settled :
      (ob : Outbound) (ss : Fields)
      → ob.stream_settings ≡ some (obj ss)
      → Settled lib.trimmed ss
      → repair_config lib (assemble_config ob) ≡ (assemble_config ob, [])
  unfolding repair_config assemble_config
  assemble_config-Settled ob ss e h =
      ap {A = List Outbound × List Change}
        (λ r. (record (assemble_config ob) { outbounds = r.0 }, r.1))
        (Stable-repair_each lib (ob ∷ direct_outbound ∷ []) (
          Stable-Calm lib ob (Calm-Settled lib ob ss e h),
          (inr (inr (direct_outbound, direct)), tt),
        ))
    where
      direct : repair_outbound lib direct_outbound ≡ some (direct_outbound, [])
      direct = refl

-- The repair finds nothing to change in a configuration that is generated now: from any VLESS URI, and
-- from a hysteria2 URI whose pin NormalizePinSHA256 has made. A stored VLESS stream over h2, its host
-- in a list, is repaired to the very members that are generated for the same URI now.
pub generated-IsSettled :
    (lib : Reading) (v : VlessConfig) (h : HysteriaConfig) (raw tag : Bytes) (k : String)
    → normalize_pin lib.trimmed raw ≡ some h.pin_sha256
    → (repair_config lib (generate_config v tag) ≡ (generate_config v tag, []))
      × (repair_config lib (hysteria_config h tag) ≡ (hysteria_config h tag, []))
      × (get k (repair_h2 (legacy_stream v)).0 ≡ get k (build_stream_settings (over_h2 v)))
unfolding generate_config hysteria_config
generated-IsSettled lib v h raw tag k q = (
  assemble_config-Settled lib (build_outbound v tag) (build_stream_settings v) refl
      (build_stream_settings-Settled v lib.trimmed),
  assemble_config-Settled lib (hysteria_outbound h tag) (stream_members h) refl
      (stream_members-Settled lib.trimmed h (normalize_pin-Fixed lib.trimmed raw h.pin_sha256 q)),
  repair_h2-over_h2 v k,
)
