-- ===== src/Xray/Repair.antt =====
-- The repair of stored outbounds, of internal/xray/repair.go. What strings.TrimSpace makes of a pin,
-- and what encoding/json makes of a number, are arguments.
pub mod Normal
pub mod Kept
pub mod Drift
pub mod Safety
use workspace_cli.Hysteria.Pin.{normalize_pin}
use workspace_cli.Prelude.{
  [], Bool, Bytes, List, Option, String, if◌then◌else◌, is_empty, leb, length, none, some, text_eq,
  true, ◌&&◌, ◌++◌, ◌==◌, ◌||◌, ◌∷◌,
}
use workspace_cli.Xrayconf.{Outbound, XrayConfig}
use workspace_cli.Xrayconf.Decoded.{Floats, decoded, decoded_fields, reads, reads_fields}
use workspace_cli.Xrayconf.Values.{
  Fields, Items, Json, arr, bytes, cons, end, field, get, null, obj, put, remove, str, text,
}

pub data Change : Type 0 where
  re_encoded_pin migrated_h2 : Change

unfoldable pub all_lower_hex : Bytes → Bool
all_lower_hex [] = true
all_lower_hex (c ∷ cs) = ((leb 48 c && leb c 57) || (leb 97 c && leb c 102)) && all_lower_hex cs

-- `lowerHex64`
unfoldable pub lower_hex64 : Bytes → Bool
unfolding all_lower_hex
lower_hex64 v = length v == 64 && all_lower_hex v

abbrev pub pin_key : String
pin_key = "pinnedPeerCertSha256"

-- A string, or a host list's first string.
unfoldable pub first_item : Items → Bytes
first_item (cons (str s) items) = s
first_item items = []

unfoldable pub first_host : Option Json → Bytes
unfolding first_item
first_host (some (str s)) = s
first_host (some (arr items)) = first_item items
first_host v = []

unfoldable pub string_of : Option Json → Bytes
string_of (some (str s)) = s
string_of v = []

-- repairH2's xhttp settings, from the http settings.
unfoldable pub xhttp_of : Option Json → Fields
unfolding first_host string_of
xhttp_of (some (obj http)) =
    let xhttp =
      field "mode" (text "stream-one") (field "path" (str (string_of (get "path" http))) end) in
    let host = first_host (get "host" http) in
    if is_empty host then xhttp else put "host" (str host) xhttp
xhttp_of v = field "mode" (text "stream-one") (field "path" (str []) end)

unfoldable pub repair_h2 : Fields → Fields × List Change
unfolding xhttp_of string_of
repair_h2 ss =
    if text_eq (string_of (get "network" ss)) (bytes "h2")
    then (
      remove "httpSettings" (
          put "xhttpSettings" (obj (xhttp_of (get "httpSettings" ss)))
            (put "network" (text "xhttp") ss)),
      migrated_h2 ∷ [],
    )
    else (ss, [])

-- none for a failed parse.
abbrev pub Repaired : Type 0
Repaired = Option (Outbound × List Change)

unfoldable pub rewritten : Outbound → Fields × List Change → Repaired
rewritten ob (ss, []) = some (ob, [])
rewritten ob (ss, c ∷ cs) = some (record ob { stream_settings = some (obj ss) }, c ∷ cs)

unfoldable pub is_proxy : Bytes → Bool
is_proxy p =
    text_eq p (bytes "vless")
    || text_eq p (bytes "hysteria")
    || text_eq p (bytes "vmess")
    || text_eq p (bytes "trojan")

unfoldable pub replace_outbound :
    Outbound → Repaired → List Outbound × List Change → List Outbound × List Change
replace_outbound ob none (obs, cs) = (ob ∷ obs, cs)
replace_outbound ob (some (r, [])) (obs, cs) = (ob ∷ obs, cs)
replace_outbound ob (some (r, d ∷ ds)) (obs, cs) = (r ∷ obs, (d ∷ ds) ++ cs)

unfoldable pub set_pin : Fields → Option Bytes → Option Fields
set_pin tls none = none
set_pin tls (some pin) = some (put pin_key (str pin) tls)

-- The map of the TLS settings is changed in place.
unfoldable pub set_tls : Fields → Option Fields → Fields × List Change
set_tls ss none = (ss, [])
set_tls ss (some tls) = (put "tlsSettings" (obj tls) ss, re_encoded_pin ∷ [])

module _ (trimmed : Bytes → Bytes) where
  unfoldable pub fix_pin : Option Json → Option Bytes
  fix_pin (some (str v)) = if is_empty v || lower_hex64 v then none else normalize_pin trimmed v
  fix_pin v = none

  unfoldable pub fix_tls : Option Json → Option Fields
  unfolding fix_pin set_pin
  fix_tls (some (obj tls)) = set_pin tls (fix_pin (get pin_key tls))
  fix_tls v = none

  unfoldable pub repair_pin : Fields → Fields × List Change
  unfolding fix_tls set_tls
  repair_pin ss = set_tls ss (fix_tls (get "tlsSettings" ss))

  unfoldable pub repair_members : Fields → Fields × List Change
  unfolding repair_pin repair_h2
  repair_members ss =
      let (ss', pins) = repair_pin ss in let (ss'', h2) = repair_h2 ss' in (ss'', pins ++ h2)

-- The functions of the standard library that the repair reads a stored stream with.
pub record Reading : Type 0 where
  pub trimmed : Bytes → Bytes
  pub floats : Floats

module _ (lib : Reading) where
  -- json.Unmarshal makes a nil map of null, and refuses what is no object, and
  -- a number out of range.
  unfoldable pub repair_stream : Outbound → Option Json → Repaired
  unfolding repair_members rewritten reads decoded
  repair_stream ob none = some (ob, [])
  repair_stream ob (some (obj ss)) =
      if reads_fields lib.floats ss
      then rewritten ob (repair_members lib.trimmed (decoded_fields lib.floats ss))
      else none
  repair_stream ob (some null) = some (ob, [])
  repair_stream ob (some v) = none

  unfoldable pub repair_outbound : Outbound → Repaired
  unfolding repair_stream
  repair_outbound ob = repair_stream ob ob.stream_settings

  unfoldable pub repair_each : List Outbound → List Outbound × List Change
  unfolding repair_outbound is_proxy replace_outbound
  repair_each [] = ([], [])
  repair_each (ob ∷ obs) =
      let rest = repair_each obs in
      let skipped : List Outbound × List Change = (ob ∷ rest.0, rest.1) in
      if is_proxy ob.protocol then replace_outbound ob (repair_outbound ob) rest else skipped

  unfoldable pub repair_config : XrayConfig → XrayConfig × List Change
  unfolding repair_each
  repair_config xc = let (obs, cs) = repair_each xc.outbounds in (record xc { outbounds = obs }, cs)
