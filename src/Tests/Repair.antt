-- ===== src/Tests/Repair.antt =====
-- Outbounds, and the theorems of internal/xray/repair.go at them.
use workspace_cli.Hysteria.Outbound.{HysteriaConfig, hysteria_config}
use workspace_cli.Hysteria.Pin.{normalize_pin}
use workspace_cli.Prelude.{[], if◌then◌else◌, refl, some, text_eq, true, ◌∷◌, ◌≡◌}
use workspace_cli.Vless.{VlessConfig, build_stream_settings, generate_config}
use workspace_cli.Xray.Repair.{Reading, migrated_h2, repair_config, repair_h2, repair_outbound}
use workspace_cli.Xray.Repair.Drift.Generated.{generated-IsSettled}
use workspace_cli.Xray.Repair.Drift.Legacy.{legacy_stream, over_h2}
use workspace_cli.Xray.Repair.Safety.{Pairwise, repair_config-IsRepair, RepairedFrom}
use workspace_cli.Xrayconf.{Outbound, assemble_config}
use workspace_cli.Xrayconf.Values.{
  Fields, arr, bytes, cons, end, field, get, int, literal, Number, nil, num, obj, put, remove, text,
}

abbrev legacy_settings : Fields
legacy_settings = field "network" (text "h2") (
    field "sockopt" (num (literal (bytes "9007199254740993")))
      (field "httpSettings" (obj (field "host" (arr (cons (text "a.example") nil)) end)) end))

abbrev stored : Outbound
stored = record {
  tag = bytes "proxy-1";
  protocol = bytes "vless";
  settings = obj end;
  stream_settings = some (obj legacy_settings);
}

-- Nothing is trimmed, every number has a float64, and one of them is rounded.
abbrev rounded : Number → Number
rounded (int n) = int n
rounded (literal s) =
    if text_eq s (bytes "9007199254740993") then literal (bytes "9007199254740992") else literal s

abbrev plain : Reading
plain = record { trimmed = λ s. s; floats = record { in_range = λ n. true; as_float = rounded } }

-- The transport is migrated, and the unknown member stays as its float64.
stored_repaired :
    repair_outbound plain stored
    ≡ some (
      record stored {
        stream_settings = some (
            obj (
              field "network" (text "xhttp") (
                field "sockopt" (num (literal (bytes "9007199254740992"))) (
                  field "xhttpSettings"
                    (obj (
                      field "mode"
                        (text "stream-one")
                        (field "path" (text "") (field "host" (text "a.example") end))))
                    end))));
      },
      migrated_h2 ∷ [],
    )
unfolding repair_outbound get put remove text_eq repair_h2
stored_repaired = refl

repair_config-IsRepair_example :
    ((repair_config plain (assemble_config stored)).0 ≡ record (assemble_config stored) {
      outbounds = (repair_config plain (assemble_config stored)).0.outbounds;
    })
    × Pairwise
        (RepairedFrom plain.floats)
        (assemble_config stored).outbounds
        (repair_config plain (assemble_config stored)).0.outbounds
    × (repair_config plain (repair_config plain (assemble_config stored)).0
        ≡ ((repair_config plain (assemble_config stored)).0, []))
repair_config-IsRepair_example = repair_config-IsRepair plain (assemble_config stored)

abbrev shared_vless : VlessConfig
shared_vless = record {
  uuid = bytes "u";
  address = bytes "a.example";
  port = 443;
  encryption = bytes "none";
  flow = [];
  network = bytes "ws";
  security = bytes "tls";
  sni = bytes "a.example";
  public_key = [];
  short_id = [];
  fp = bytes "chrome";
  spider_x = [];
  path = bytes "/p";
  host = bytes "a.example";
  service_name = [];
  mode = [];
  header_type = [];
  remark = [];
}

abbrev shared_hysteria : HysteriaConfig
shared_hysteria = record {
  auth = bytes "s";
  address = bytes "a.example";
  port = 443;
  sni = bytes "a.example";
  alpn = bytes "h3" ∷ [];
  fingerprint = bytes "chrome";
  pin_sha256 = [];
  obfs = bytes "salamander";
  obfs_password = bytes "o";
  hop_ports = [];
  hop_interval = 0;
  up = [];
  down = [];
  congestion = [];
}

no_pin : normalize_pin plain.trimmed [] ≡ some []
unfolding normalize_pin
no_pin = refl

generated-IsSettled_example :
    (repair_config plain (generate_config shared_vless (bytes "proxy-1"))
      ≡ (generate_config shared_vless (bytes "proxy-1"), []))
    × (repair_config plain (hysteria_config shared_hysteria (bytes "proxy-1"))
        ≡ (hysteria_config shared_hysteria (bytes "proxy-1"), []))
    × (get "xhttpSettings" (repair_h2 (legacy_stream shared_vless)).0
        ≡ get "xhttpSettings" (build_stream_settings (over_h2 shared_vless)))
generated-IsSettled_example =
    generated-IsSettled plain shared_vless shared_hysteria [] (bytes "proxy-1") "xhttpSettings"
      no_pin
