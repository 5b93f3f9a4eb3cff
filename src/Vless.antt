-- ===== src/Vless.antt =====
-- The outbound of a parsed VLESS URI, of internal/vless/config.go.
use workspace_cli.Prelude.{Bool, Bytes, String, false, if◌then◌else◌, is_empty, some, text_eq, ℕ}
use workspace_cli.Xrayconf.{Outbound, XrayConfig, assemble_config}
use workspace_cli.Xrayconf.Values.{
  Fields, Json, arr, bool, bytes, cons, end, field, int, nil, num, obj, put, str, text,
}

pub record VlessConfig : Type 0 where
  pub uuid : Bytes
  pub address : Bytes
  pub port : ℕ
  pub encryption : Bytes
  pub flow : Bytes
  pub network : Bytes
  pub security : Bytes
  pub sni : Bytes
  pub public_key : Bytes
  pub short_id : Bytes
  pub fp : Bytes
  pub spider_x : Bytes
  pub path : Bytes
  pub host : Bytes
  pub service_name : Bytes
  pub mode : Bytes
  pub header_type : Bytes
  pub remark : Bytes

abbrev pub is_text : Bytes → String → Bool
is_text v s = text_eq v (bytes s)

module _ (cfg : VlessConfig) where
  abbrev pub reality_settings : Json
  reality_settings = obj (
      field "serverName" (str cfg.sni) (
        field "fingerprint" (str cfg.fp) (
          field "publicKey" (str cfg.public_key)
            (field "shortId" (str cfg.short_id) (field "spiderX" (str cfg.spider_x) end)))))

  abbrev pub tls_settings : Json
  tls_settings = obj (field "serverName" (str cfg.sni) (field "fingerprint" (str cfg.fp) end))

  unfoldable pub with_security : Fields → Fields
  with_security ss =
      if is_text cfg.security "reality"
      then put "realitySettings" reality_settings ss
      else if is_text cfg.security "tls"
      then put "tlsSettings" tls_settings ss
      else ss

  abbrev pub tcp_settings : Json
  tcp_settings = obj (
      field "header"
        (obj (
          field "type" (text "http") (
            field "request"
              (obj (
                field "path" (arr (cons (str cfg.path) nil))
                  (field "headers" (obj (field "Host" (arr (cons (str cfg.host) nil)) end)) end)))
              end)))
        end)

  abbrev pub ws_settings : Json
  ws_settings =
      obj
        (field "path" (str cfg.path) (field "headers" (obj (field "Host" (str cfg.host) end)) end))

  unfoldable pub h2_settings : Fields
  unfolding put
  h2_settings =
      let xhttp = field "mode" (text "stream-one") (field "path" (str cfg.path) end) in
      if is_empty cfg.host then xhttp else put "host" (str cfg.host) xhttp

  unfoldable pub with_transport : Fields → Fields
  with_transport ss =
      if is_text cfg.network "tcp"
      then (if is_text cfg.header_type "http" then put "tcpSettings" tcp_settings ss else ss)
      else if is_text cfg.network "ws"
      then put "wsSettings" ws_settings ss
      else if is_text cfg.network "grpc"
      then put "grpcSettings"
          (obj (field "serviceName" (str cfg.service_name) (field "multiMode" (bool false) end))) ss
      else if is_text cfg.network "h2"
      then put "xhttpSettings" (obj h2_settings) (put "network" (text "xhttp") ss)
      else if is_text cfg.network "httpupgrade"
      then put "httpupgradeSettings"
          (obj (field "path" (str cfg.path) (field "host" (str cfg.host) end))) ss
      else if is_text cfg.network "xhttp"
      then put "xhttpSettings" (obj (field "path" (str cfg.path) (field "mode" (str cfg.mode) end)))
          ss
      else ss

  unfoldable pub build_stream_settings : Fields
  unfolding with_security with_transport
  build_stream_settings =
      with_transport (
        with_security (field "network" (str cfg.network) (field "security" (str cfg.security) end)))

  unfoldable pub build_outbound : Bytes → Outbound
  unfolding build_stream_settings
  build_outbound tag = record {
    tag = tag;
    protocol = bytes "vless";
    settings = obj (
        field "vnext"
          (arr (
            cons
              (obj (
                field "address" (str cfg.address) (
                  field "port" (num (int cfg.port)) (
                    field "users"
                      (arr (
                        cons
                          (obj (
                            field "id" (str cfg.uuid) (
                              field "encryption" (str cfg.encryption)
                                (field "flow" (str cfg.flow) end))))
                          nil))
                      end))))
              nil))
          end);
    stream_settings = some (obj build_stream_settings);
  }

  unfoldable pub generate_config : Bytes → XrayConfig
  unfolding build_outbound assemble_config
  generate_config tag = assemble_config (build_outbound tag)
