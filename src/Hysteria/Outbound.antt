-- ===== src/Hysteria/Outbound.antt =====
-- The outbound of a parsed hysteria2 URI, of internal/hysteria2/config.go.
use workspace_cli.Prelude.{
  [], Bytes, List, String, if◌then◌else◌, is_empty, ltb, some, text_eq, ℕ, ◌∷◌,
}
use workspace_cli.Xrayconf.{Outbound, XrayConfig, assemble_config}
use workspace_cli.Xrayconf.Values.{
  Fields, Items, Json, arr, bytes, cons, end, field, int, nil, num, obj, put, str, text,
}

pub record HysteriaConfig : Type 0 where
  pub auth : Bytes
  pub address : Bytes
  pub port : ℕ
  pub sni : Bytes
  pub alpn : List Bytes
  pub fingerprint : Bytes
  pub pin_sha256 : Bytes
  pub obfs : Bytes
  pub obfs_password : Bytes
  pub hop_ports : Bytes
  pub hop_interval : ℕ
  pub up : Bytes
  pub down : Bytes
  pub congestion : Bytes

unfoldable pub texts : List Bytes → Items
texts [] = nil
texts (t ∷ ts) = cons (str t) (texts ts)

-- A member that is written when its text is not empty.
unfoldable pub put_text : String → Bytes → Fields → Fields
put_text k v m = if is_empty v then m else put k (str v) m

module _ (cfg : HysteriaConfig) where
  unfoldable pub tls_members : Fields
  unfolding put_text texts
  tls_members = put_text "pinnedPeerCertSha256" cfg.pin_sha256 (
      field "serverName" (str cfg.sni)
        (field "alpn" (arr (texts cfg.alpn)) (field "fingerprint" (str cfg.fingerprint) end)))

  unfoldable pub udphop : Fields
  udphop =
      let hop = field "port" (str cfg.hop_ports) end in
      if ltb 0 cfg.hop_interval then put "interval" (num (int cfg.hop_interval)) hop else hop

  unfoldable pub hysteria_members : Fields
  unfolding put_text udphop
  hysteria_members =
      let hy = field "version" (num (int 2)) (field "auth" (str cfg.auth) end) in
      let hopping = if is_empty cfg.hop_ports then hy else put "udphop" (obj udphop) hy in
      put_text "congestion" cfg.congestion (put_text "down" cfg.down (put_text "up" cfg.up hopping))

  abbrev pub salamander : Json
  salamander = obj (
      field "udp"
        (arr (
          cons
            (obj (
              field "type" (text "salamander")
                (field "settings" (obj (field "password" (str cfg.obfs_password) end)) end)))
            nil))
        end)

  unfoldable pub stream_members : Fields
  unfolding tls_members hysteria_members
  stream_members =
      let stream = field "network" (text "hysteria") (
        field "security" (text "tls") (
          field "tlsSettings" (obj tls_members)
            (field "hysteriaSettings" (obj hysteria_members) end))) in
      if text_eq cfg.obfs (bytes "salamander") then put "finalmask" salamander stream else stream

  unfoldable pub hysteria_outbound : Bytes → Outbound
  unfolding stream_members
  hysteria_outbound tag = record {
    tag = tag;
    protocol = bytes "hysteria";
    settings = obj (
        field "version" (num (int 2))
          (field "address" (str cfg.address) (field "port" (num (int cfg.port)) end)));
    stream_settings = some (obj stream_members);
  }

  unfoldable pub hysteria_config : Bytes → XrayConfig
  unfolding hysteria_outbound assemble_config
  hysteria_config tag = assemble_config (hysteria_outbound tag)
