-- ===== src/Xray/Active/Removed.antt =====
-- `RemoveProfile`: what it checks, and what it takes away.
use workspace_cli.Prelude.{
  if_true, Bool, Bytes, Option, false, if_intro, none, refl, some, text_eq, true, ◌≡◌, ◌≢◌, ap,
  false≢true, sym, text_eq_refl, ◌∙◌,
}
use workspace_cli.Xray.Active.{
  ActiveReply, RemoveError, active, check_named, check_removable, check_target, name_or_empty,
  read_active_profile_name, remove_checked, remove_profile, active_of,
}
use workspace_cli.Xray.Name.{profile_of_target, NameError, validate_profile_name}
use workspace_cli.Xray.Name.Valid.{ValidName, validate_profile_name-ValidName}
use workspace_cli.Xray.Store.{link, Node, Store, set_profile, update-other, update-same}

-- When both calls on the link work, it does not lead to the profile.
abbrev pub NotLinked : Bool → Bool → Bytes → Store → Type 0
NotLinked lstats readable name s =
    lstats ≡ true
    → readable ≡ true
    → (target : Bytes) → s.config ≡ some (link target)
    → profile_of_target target ≢ name

-- What a removal did: nothing at all, when it is refused; otherwise the one file is gone.
abbrev pub IsRemoval : Bool → Bool → Bytes → Store → Option RemoveError → Store → Type 0
IsRemoval lstats readable name s (some x) s' = s' ≡ s
IsRemoval lstats readable name s none s' =
    NotLinked lstats readable name s
    × ValidName name
    × (s.profiles name ≢ none)
    × (s'.profiles name ≡ none)
    × (s'.config ≡ s.config)
    × ((n : Bytes) → n ≢ name → s'.profiles n ≡ s.profiles n)

-- What passed checks say.
abbrev Passed : ActiveReply → Bytes → Store → Option RemoveError → Type 0
Passed now name s (some x) = Unit
Passed now name s none = (now ≢ active name) × ValidName name × (s.profiles name ≢ none)

check_target-Passed :
    (now : ActiveReply) (l : Bool) (name : Bytes) (s : Store) (found : Option Node)
    → s.profiles name ≡ found
    → now ≢ active name
    → ValidName name
    → Passed now name s (check_target l found)
unfolding check_target
check_target-Passed now false name s found q n v = tt
check_target-Passed now true name s none q n v = tt
check_target-Passed now true name s (some node) q n v =
    (n, v, λ p. let h : none ≡ some node = sym p ∙ q in cc)

check_named-Passed :
    (a b c : Bool) (o : Option NameError) (name : Bytes) (s : Store)
    → validate_profile_name name ≡ o
    → Passed (read_active_profile_name a b s) name s (check_named a b c o name s)
unfolding check_named name_or_empty
check_named-Passed a b c (some x) name s q = tt
check_named-Passed a b c none name s q =
    let now = read_active_profile_name a b s in
    if_intro (Passed now name s) (text_eq (name_or_empty now) name) _ _ (λ p. tt)
      λ p.
        check_target-Passed now c name s (s.profiles name) refl
          (λ h. false≢true (sym p ∙ ap (λ x. text_eq (name_or_empty x) name) h ∙ text_eq_refl name))
          ((validate_profile_name-ValidName name).0 q)

-- A link that can be read is the active profile's.
active-NotLinked :
    (lstats readable : Bool) (name : Bytes) (s : Store)
    → read_active_profile_name lstats readable s ≢ active name
    → NotLinked lstats readable name s
unfolding read_active_profile_name active_of
active-NotLinked lstats readable name s n l r target c q =
    n (
      if_true lstats _ _ l ∙ ap (λ b. active_of b s.config) r ∙ ap (active_of true) c ∙ ap active q)

remove_checked-IsRemoval :
    (a b r : Bool) (o : Option RemoveError) (name : Bytes) (s : Store)
    → Passed (read_active_profile_name a b s) name s o
    → IsRemoval a b name s (remove_checked r o name s).0 (remove_checked r o name s).1
unfolding remove_checked set_profile
remove_checked-IsRemoval a b r (some x) name s h = refl
remove_checked-IsRemoval a b false none name s h = refl
remove_checked-IsRemoval a b true none name s (n, v, p) = (
  active-NotLinked a b name s n,
  v,
  p,
  update-same name none s.profiles,
  refl,
  λ k q. update-other name k none s.profiles q,
)

-- A removal that is refused, by a bad name, the active profile, a missing file or a failing call,
-- changes nothing. One that succeeds had a valid name and a file to remove; it removes that file, and
-- no other file nor the link changes. When Lstat and Readlink work on the link, the link does not lead
-- to the profile that is removed; when one of them fails, nothing is said of it.
pub remove_profile-IsRemoval :
    (lstats readable lstats_target removes : Bool) (name : Bytes) (s : Store)
    → let out = remove_profile lstats readable lstats_target removes name s in
      IsRemoval lstats readable name s out.0 out.1
unfolding remove_profile check_removable
remove_profile-IsRemoval a b c r name s =
    remove_checked-IsRemoval a b r (check_removable a b c name s) name s
      (check_named-Passed a b c (validate_profile_name name) name s refl)
