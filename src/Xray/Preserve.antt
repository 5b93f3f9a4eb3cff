-- ===== src/Xray/Preserve.antt =====
-- `applyOwnedKeys` (internal/xray/preserve.go) and `RegenerateProfile`
-- (internal/xray/regenerate.go). A JSON object is the list of its members; a Go map is such a list,
-- too, with what stands first under a key.
pub mod Members
pub mod Regenerated
use workspace_cli.Prelude.{Bool, Bytes, List, Option, [], if◌then◌else◌, none, some, text_eq, ◌∷◌}
use workspace_cli.Xray.Active.{
  ActiveError, ActiveReply, active, no_active, read_active_profile_name,
}
use workspace_cli.Xray.Name.{NameError, validate_profile_name}
use workspace_cli.Xray.Store.{
  Content, Node, Store, file, json_null, link, not_object, object, other, set_profile,
}
use workspace_cli.Xrayconf.Values.{text}

abbrev pub Members : Type 0
Members = List (Bytes × Bytes)

unfoldable pub member : Bytes → Members → Option Bytes
member k [] = none
member k ((key, v) ∷ ms) = let rest = member k ms in if text_eq k key then some v else rest

-- `delete(raw, k)`
unfoldable pub delete_key : Bytes → Members → Members
delete_key k [] = []
delete_key k ((key, v) ∷ ms) =
    let rest = delete_key k ms in if text_eq k key then rest else (key, v) ∷ rest

-- `raw[k] = v`
unfoldable pub set_key : Bytes → Bytes → Members → Members
unfolding delete_key
set_key k v ms = (k, v) ∷ delete_key k ms

-- `json.Unmarshal` into a map: of two members with one key, the last stays.
unfoldable pub unmarshal_onto : Members → Members → Members
unfolding set_key
unmarshal_onto [] raw = raw
unmarshal_onto ((k, v) ∷ ms) raw = unmarshal_onto ms (set_key k v raw)

-- A null is read as a nil map, without an error. A nil map has no members, and applyOwnedKeys makes
-- an empty map of it.
unfoldable pub unmarshal : Content → Option Members
unfolding unmarshal_onto
unmarshal json_null = some []
unmarshal (object ms) = some (unmarshal_onto ms [])
unmarshal (not_object text) = none

-- The loop over `owned`: a key with no value is deleted.
unfoldable pub apply_each : List (Bytes × Option Bytes) → Members → Members
unfolding set_key delete_key
apply_each [] raw = raw
apply_each ((k, none) ∷ owned) raw = apply_each owned (delete_key k raw)
apply_each ((k, some v) ∷ owned) raw = apply_each owned (set_key k v raw)

unfoldable pub apply_owned : List (Bytes × Option Bytes) → Option Members → Option Content
unfolding apply_each
apply_owned owned none = none
apply_owned owned (some raw) = some (object (apply_each owned raw))

-- none for an error.
unfoldable pub apply_owned_keys : Content → List (Bytes × Option Bytes) → Option Content
unfolding apply_owned unmarshal
apply_owned_keys original owned = apply_owned owned (unmarshal original)

-- "routing"
abbrev pub routing_key : Bytes
routing_key = 114 ∷ 111 ∷ 117 ∷ 116 ∷ 105 ∷ 110 ∷ 103 ∷ []

pub data RegenerateReply : Type 0 where
  regenerated no_op : RegenerateReply
  bad_target : NameError → RegenerateReply
  no_active_profile : ActiveError → RegenerateReply
  active_unread active_unparsed target_unread target_unparsed not_written : RegenerateReply

-- `os.ReadFile` of a profile. A link is read as what it leads to, which the argument gives.
unfoldable pub read_profile : (Bytes → Option Content) → Option Node → Option Content
read_profile through none = none
read_profile through (some other) = none
read_profile through (some (file c)) = some c
read_profile through (some (link target)) = through target

unfoldable pub write_target : Bool → Bytes → Option Content → Store → RegenerateReply × Store
write_target writes name none s = (target_unparsed, s)
write_target writes name (some c) s =
    if writes then (regenerated, set_profile name (some (file c)) s) else (not_written, s)

unfoldable pub splice_routing :
    Bool → Bytes → Members → Option Content → Store → RegenerateReply × Store
unfolding write_target apply_owned_keys
splice_routing writes name source none s = (target_unread, s)
splice_routing writes name source (some target) s =
    write_target writes name
      (apply_owned_keys target ((routing_key, member routing_key source) ∷ [])) s

unfoldable pub from_source :
    (Bytes → Option Content) → Bool → Bytes → Option Members → Store → RegenerateReply × Store
unfolding splice_routing
from_source through writes name none s = (active_unparsed, s)
from_source through writes name (some source) s =
    splice_routing writes name source (read_profile through (s.profiles name)) s

unfoldable pub from_active :
    (Bytes → Option Content) → Bool → Bytes → Option Content → Store → RegenerateReply × Store
unfolding from_source
from_active through writes name none s = (active_unread, s)
from_active through writes name (some c) s = from_source through writes name (unmarshal c) s

unfoldable pub regenerate_from :
    (Bytes → Option Content) → Bool → Bytes → ActiveReply → Store → RegenerateReply × Store
unfolding from_active
regenerate_from through writes name (no_active x) s = (no_active_profile x, s)
regenerate_from through writes name (active now) s =
    let run = from_active through writes name (read_profile through (s.profiles now)) s in
    if text_eq now name then (no_op, s) else run

unfoldable pub regenerate_named :
    (Bytes → Option Content)
    → Bool
    → Bytes
    → ActiveReply
    → Option NameError
    → Store
    → RegenerateReply × Store
unfolding regenerate_from
regenerate_named through writes name now (some x) s = (bad_target x, s)
regenerate_named through writes name now none s = regenerate_from through writes name now s

unfoldable pub regenerate_profile :
    Bool → Bool → (Bytes → Option Content) → Bool → Bytes → Store → RegenerateReply × Store
unfolding regenerate_named
regenerate_profile lstats readable through writes name s =
    regenerate_named through writes name (read_active_profile_name lstats readable s)
      (validate_profile_name name) s
