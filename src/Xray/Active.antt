-- ===== src/Xray/Active.antt =====
-- `ReadActiveProfileName`, `CheckRemovable` and `RemoveProfile` of internal/xray/profile.go.
pub mod Removed
use workspace_cli.Prelude.{Bool, Bytes, Option, [], false, if◌then◌else◌, none, some, text_eq, true}
use workspace_cli.Xray.Name.{NameError, profile_of_target, validate_profile_name}
use workspace_cli.Xray.Store.{Node, Store, file, link, other, set_profile}

pub data ActiveError : Type 0 where
  not_exist lstat_failed not_a_link readlink_failed : ActiveError

-- The name, or the error.
pub data ActiveReply : Type 0 where
  active : Bytes → ActiveReply
  no_active : ActiveError → ActiveReply

unfoldable pub active_of : Bool → Option Node → ActiveReply
active_of readable none = no_active not_exist
active_of readable (some (file c)) = no_active not_a_link
active_of readable (some other) = no_active not_a_link
active_of false (some (link target)) = no_active readlink_failed
active_of true (some (link target)) = active (profile_of_target target)

-- `lstats` and `readable`: the two calls on `cfg.XrayConfig` work.
unfoldable pub read_active_profile_name : Bool → Bool → Store → ActiveReply
unfolding active_of
read_active_profile_name lstats readable s =
    if lstats then active_of readable s.config else no_active lstat_failed

-- The callers that drop the error read "".
unfoldable pub name_or_empty : ActiveReply → Bytes
name_or_empty (active name) = name
name_or_empty (no_active x) = []

pub data RemoveError : Type 0 where
  bad_name : NameError → RemoveError
  is_active not_there lstat_target_failed remove_failed : RemoveError

-- The file is looked for without following a link.
unfoldable pub check_target : Bool → Option Node → Option RemoveError
check_target false found = some lstat_target_failed
check_target true none = some not_there
check_target true (some node) = none

unfoldable pub check_named :
    Bool → Bool → Bool → Option NameError → Bytes → Store → Option RemoveError
unfolding check_target
check_named lstats readable lstats_target (some x) name s = some (bad_name x)
check_named lstats readable lstats_target none name s =
    if text_eq (name_or_empty (read_active_profile_name lstats readable s)) name
    then some is_active
    else check_target lstats_target (s.profiles name)

-- none for nil.
unfoldable pub check_removable : Bool → Bool → Bool → Bytes → Store → Option RemoveError
unfolding check_named
check_removable lstats readable lstats_target name s =
    check_named lstats readable lstats_target (validate_profile_name name) name s

unfoldable pub remove_checked :
    Bool → Option RemoveError → Bytes → Store → Option RemoveError × Store
remove_checked removes (some x) name s = (some x, s)
remove_checked true none name s = (none, set_profile name none s)
remove_checked false none name s = (some remove_failed, s)

unfoldable pub remove_profile :
    Bool → Bool → Bool → Bool → Bytes → Store → Option RemoveError × Store
unfolding remove_checked
remove_profile lstats readable lstats_target removes name s =
    remove_checked removes (check_removable lstats readable lstats_target name s) name s
