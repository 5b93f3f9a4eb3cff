-- ===== src/Xray/Preserve/Regenerated.antt =====
-- `RegenerateProfile`, and the profile it writes.
-- The active profile and the target as read, and the target as written.
use workspace_cli.Prelude.{
  Bytes, Option, some, ◌≡◌, ◌≢◌, Bool, [], ap, false≢true, if_intro, if◌then◌else◌, none, refl, sym,
  text_eq, text_eq_iff, text_eq_other, text_eq_refl, text_eq→≡, ◌∙◌, ◌∷◌,
}
use workspace_cli.Xray.Active.{ActiveReply, active, no_active, read_active_profile_name}
use workspace_cli.Xray.Name.{NameError, validate_profile_name}
use workspace_cli.Xray.Preserve.{
  Members, RegenerateReply, active_unparsed, active_unread, bad_target, member, no_active_profile,
  no_op, not_written, read_profile, regenerated, routing_key, target_unparsed, target_unread,
  unmarshal, apply_each, apply_owned, apply_owned_keys, from_active, from_source, regenerate_from,
  regenerate_named, regenerate_profile, splice_routing, write_target,
}
use workspace_cli.Xray.Preserve.Members.{member-apply_each, or_kept}
use workspace_cli.Xray.Store.{Content, Store, file, object, set_profile, update-other, update-same}

abbrev pub Spliced : (Bytes → Option Content) → Bytes → Bytes → Store → Store → Type 0
Spliced through now name s s' =
    (source : Members) × (target : Members) × (out : Members) × ((c : Content) × (read_profile
          through (s.profiles now)
        ≡ some c)
      × (unmarshal c ≡ some source))
    × ((c : Content) × (read_profile through (s.profiles name) ≡ some c)
        × (unmarshal c ≡ some target))
    × (s'.profiles name ≡ some (file (object out)))
    × (member routing_key out ≡ member routing_key source)
    × ((k : Bytes) → k ≢ routing_key → member k out ≡ member k target)

abbrev pub IsRegeneration :
    (Bytes → Option Content) → Bytes → ActiveReply → Store → RegenerateReply → Store → Type 0
IsRegeneration through name now s regenerated s' =
    (a : Bytes) × (now ≡ active a)
    × (a ≢ name)
    × Spliced through a name s s'
    × (s'.config ≡ s.config)
    × ((n : Bytes) → n ≢ name → s'.profiles n ≡ s.profiles n)
IsRegeneration through name now s no_op s' = (s' ≡ s) × (now ≡ active name)
IsRegeneration through name now s (bad_target x) s' = s' ≡ s
IsRegeneration through name now s (no_active_profile x) s' = (s' ≡ s) × (now ≡ no_active x)
IsRegeneration through name now s active_unread s' = s' ≡ s
IsRegeneration through name now s active_unparsed s' = s' ≡ s
IsRegeneration through name now s target_unread s' = s' ≡ s
IsRegeneration through name now s target_unparsed s' = s' ≡ s
IsRegeneration through name now s not_written s' = s' ≡ s

routing-owned :
    (v : Option Bytes) (raw : Members)
    → member routing_key (apply_each ((routing_key, v) ∷ []) raw) ≡ v
routing-owned v raw =
    member-apply_each routing_key ((routing_key, v) ∷ []) raw
    ∙ ap (λ b. or_kept (if b then some v else none) (member routing_key raw))
        (text_eq_refl routing_key)

others-kept :
    (v : Option Bytes) (raw : Members) (k : Bytes)
    → k ≢ routing_key
    → member k (apply_each ((routing_key, v) ∷ []) raw) ≡ member k raw
others-kept v raw k h =
    member-apply_each k ((routing_key, v) ∷ []) raw
    ∙ ap (λ b. or_kept (if b then some v else none) (member k raw)) (text_eq_other k routing_key h)

module _ (through : Bytes → Option Content) (writes : Bool) (name a : Bytes) (now : ActiveReply)
    (s : Store) (q : now ≡ active a) (ne : a ≢ name) where
  abbrev Out : RegenerateReply × Store → Type 0
  Out r = IsRegeneration through name now s r.0 r.1

  -- What has been read of a profile.
  abbrev Read : Bytes → Members → Type 0
  Read n ms =
      (c : Content) × (read_profile through (s.profiles n) ≡ some c) × (unmarshal c ≡ some ms)

  write_target-IsRegeneration :
      (source : Members) (t : Content) (m : Option Members)
      → Read a source
      → read_profile through (s.profiles name) ≡ some t
      → unmarshal t ≡ m
      → Out (
          write_target writes name
            (apply_owned ((routing_key, member routing_key source) ∷ []) m)
            s)
  unfolding write_target apply_owned set_profile
  write_target-IsRegeneration source t none r p u = refl
  write_target-IsRegeneration source t (some raw) r p u =
      if_intro Out writes _ _
        (λ _. (
          a,
          q,
          ne,
          (
            source,
            raw,
            apply_each ((routing_key, member routing_key source) ∷ []) raw,
            r,
            (t, p, u),
            update-same name _ s.profiles,
            routing-owned (member routing_key source) raw,
            others-kept (member routing_key source) raw,
          ),
          refl,
          λ n h. update-other name n _ s.profiles h,
        ))
        (λ _. refl)

  splice_routing-IsRegeneration :
      (source : Members) (o : Option Content)
      → Read a source
      → read_profile through (s.profiles name) ≡ o
      → Out (splice_routing writes name source o s)
  unfolding splice_routing apply_owned_keys
  splice_routing-IsRegeneration source none r p = refl
  splice_routing-IsRegeneration source (some t) r p =
      write_target-IsRegeneration source t (unmarshal t) r p refl

  from_source-IsRegeneration :
      (c : Content) (m : Option Members)
      → read_profile through (s.profiles a) ≡ some c
      → unmarshal c ≡ m
      → Out (from_source through writes name m s)
  unfolding from_source
  from_source-IsRegeneration c none p u = refl
  from_source-IsRegeneration c (some source) p u =
      splice_routing-IsRegeneration source (read_profile through (s.profiles name)) (c, p, u) refl

  from_active-IsRegeneration :
      (o : Option Content)
      → read_profile through (s.profiles a) ≡ o
      → Out (from_active through writes name o s)
  unfolding from_active
  from_active-IsRegeneration none p = refl
  from_active-IsRegeneration (some c) p = from_source-IsRegeneration c (unmarshal c) p refl

regenerate_from-IsRegeneration :
    (through : Bytes → Option Content) (writes : Bool) (name : Bytes) (now : ActiveReply)
    (s : Store)
    → let out = regenerate_from through writes name now s in
      IsRegeneration through name now s out.0 out.1
unfolding regenerate_from
regenerate_from-IsRegeneration through writes name (no_active x) s = (refl, refl)
regenerate_from-IsRegeneration through writes name (active a) s =
    if_intro (λ (r : RegenerateReply × Store). IsRegeneration through name (active a) s r.0 r.1)
      (text_eq a name) _ _ (λ h. (refl, ap active (text_eq→≡ a name h)))
      λ h.
        from_active-IsRegeneration through writes name a (active a) s refl
          (λ p. false≢true (sym h ∙ (text_eq_iff a name).1 p)) (read_profile through (s.profiles a))
          refl

regenerate_named-IsRegeneration :
    (through : Bytes → Option Content) (writes : Bool) (name : Bytes) (now : ActiveReply)
    (o : Option NameError) (s : Store)
    → let out = regenerate_named through writes name now o s in
      IsRegeneration through name now s out.0 out.1
unfolding regenerate_named
regenerate_named-IsRegeneration through writes name now (some x) s = refl
regenerate_named-IsRegeneration through writes name now none s =
    regenerate_from-IsRegeneration through writes name now s

-- A regeneration that succeeds writes the target, and no other file: its routing is the active
-- profile's, or is gone when that has none, and every other top-level key has the value that
-- encoding/json read for it before. The active profile is another one. Every other reply, the
-- no-op on the active profile and each error, leaves the store as it was.
pub regenerate_profile-IsRegeneration :
    (lstats readable : Bool) (through : Bytes → Option Content) (writes : Bool) (name : Bytes)
    (s : Store)
    → let out = regenerate_profile lstats readable through writes name s in
      IsRegeneration through name (read_active_profile_name lstats readable s) s out.0 out.1
unfolding regenerate_profile
regenerate_profile-IsRegeneration lstats readable through writes name s =
    regenerate_named-IsRegeneration through writes name (read_active_profile_name lstats readable s)
      (validate_profile_name name) s
