-- ===== src/Xrayconf.antt =====
-- The configuration of xray, of internal/xrayconf/config.go: its types, and AssembleConfig.
pub mod Values
pub mod Decoded
use workspace_cli.Prelude.{[], Bool, Bytes, List, Option, none, some, true, ℕ, ◌∷◌}
use workspace_cli.Xrayconf.Values.{Json, bytes, obj, field, text, arr, cons, nil, end}

-- A raw message: none, which has no bytes, or a value.
pub record Outbound : Type 0 where
  pub tag : Bytes
  pub protocol : Bytes
  pub settings : Json
  pub stream_settings : Option Json

pub record Inbound : Type 0 where
  pub tag : Bytes
  pub port : ℕ
  pub protocol : Bytes
  pub network : Bytes
  pub follow_redirect : Bool
  pub sniffing : Option (Bool × List Bytes)
  pub stream_settings : Option (Option Bytes)

pub record Balancer : Type 0 where
  pub tag : Bytes
  pub selector : List Bytes
  pub strategy : Bytes

pub record RoutingConfig : Type 0 where
  pub domain_strategy : Bytes
  pub balancers : List Balancer
  pub rules : List Json

pub record XrayConfig : Type 0 where
  pub log_level : Bytes
  pub inbounds : List Inbound
  pub outbounds : List Outbound
  pub routing : RoutingConfig

abbrev direct_rule : Json
direct_rule = obj (
    field "type" (text "field") (
      field "ip"
        (arr (
          cons (text "10.0.0.0/8") (
            cons (text "172.16.0.0/12")
              (cons (text "192.168.0.0/16") (cons (text "127.0.0.0/8") nil)))))
        (field "outboundTag" (text "direct") end)))

abbrev proxy_rule : Json
proxy_rule = obj (
    field "type" (text "field")
      (field "network" (text "tcp,udp") (field "balancerTag" (text "proxy-balancer") end)))

abbrev pub transparent_inbound : Inbound
transparent_inbound = record {
  tag = bytes "transparent";
  port = 12345;
  protocol = bytes "dokodemo-door";
  network = bytes "tcp,udp";
  follow_redirect = true;
  sniffing = some (true, bytes "http" ∷ bytes "tls" ∷ bytes "quic" ∷ []);
  stream_settings = some (some (bytes "tproxy"));
}

abbrev pub direct_outbound : Outbound
direct_outbound = record {
  tag = bytes "direct";
  protocol = bytes "freedom";
  settings = obj end;
  stream_settings = none;
}

unfoldable pub assemble_config : Outbound → XrayConfig
assemble_config proxy = record {
  log_level = bytes "warning";
  inbounds = transparent_inbound ∷ [];
  outbounds = proxy ∷ direct_outbound ∷ [];
  routing = record {
    domain_strategy = bytes "IPIfNonMatch";
    balancers =
        record {
          tag = bytes "proxy-balancer";
          selector = bytes "proxy-" ∷ [];
          strategy = bytes "roundRobin";
        }
        ∷ [];
    rules = direct_rule ∷ proxy_rule ∷ [];
  };
}
