-- ===== src/Xray/Repair/Kept.antt =====
-- What the repair leaves alone.
use workspace_cli.Prelude.{
  [], Bool, Bool-cases, Bytes, List, Option, String, ap, eq_iff, false, false≢true, if_false,
  if_intro, if_true, if◌then◌else◌, inl, inr, none, refl, some, some_inj, str_eq, subst, sym,
  text_eq, true, ◌||◌, ◌∙◌, ◌∷◌, ◌≡◌, ◌⊎◌,
}
use workspace_cli.Xray.Repair.{
  Change, Reading, fix_pin, fix_tls, pin_key, repair_h2, repair_members, repair_outbound,
  repair_pin, repair_stream, rewritten, set_pin, set_tls, string_of,
}
use workspace_cli.Xray.Repair.Normal.{repair_h2-tls}
use workspace_cli.Xrayconf.{Outbound}
use workspace_cli.Xrayconf.Decoded.{Floats, decoded, decoded_fields, reads, reads_fields}
use workspace_cli.Xrayconf.Values.{
  Fields, Json, arr, bool, bytes, get, get-put, get-remove, null, num, obj, put, remove, str,
}

-- The members that the repair writes.
abbrev pub is_owned : String → Bool
is_owned k =
    str_eq "tlsSettings" k
    || str_eq "network" k
    || str_eq "xhttpSettings" k
    || str_eq "httpSettings" k

-- Members agree, but for those under the keys that a test names.
abbrev pub AgreeBut : (String → Bool) → Fields → Fields → Type 0
AgreeBut p a b = (k : String) → get k b ≡ (if p k then get k b else get k a)

-- A value stands, or its members agree.
abbrev pub KeptValue : (Fields → Fields → Type 0) → Option Json → Option Json → Type 0
KeptValue R v w =
    (w ≡ v) ⊎ ((a : Fields) × (b : Fields) × (v ≡ some (obj a)) × (w ≡ some (obj b)) × R a b)

abbrev pub KeptMembers : Fields → Fields → Type 0
KeptMembers a b =
    AgreeBut is_owned a b
    × KeptValue (AgreeBut (λ k. str_eq pin_key k)) (get "tlsSettings" a) (get "tlsSettings" b)

-- The members are compared as they are decoded.
pub record IsKept (floats : Floats) (ob r : Outbound) : Type 0 where
  pub tag : r.tag ≡ ob.tag
  pub protocol : r.protocol ≡ ob.protocol
  pub settings : r.settings ≡ ob.settings
  pub stream :
      KeptValue
        (λ a b. KeptMembers (decoded_fields floats a) b)
        ob.stream_settings
        r.stream_settings

other_key : (p : String → Bool) (k j : String) → p k ≡ true → p j ≡ false → str_eq k j ≡ false
other_key p k j h e = elim (Bool-cases (str_eq k j)) [
  | inl q ↦ absurd (false≢true (sym e ∙ ap p (sym ((eq_iff k j).0 q)) ∙ h))
  | inr q ↦ q
]

-- A write under a key that the test names.
AgreeBut-put :
    (p : String → Bool) (k : String) (v : Json) (a b : Fields)
    → p k ≡ true
    → AgreeBut p a b
    → AgreeBut p a (put k v b)
AgreeBut-put p k v a b h r j = elim (Bool-cases (p j)) [
  | inl e ↦ sym (if_true (p j) (get j (put k v b)) (get j a) e)
  | inr e ↦
      get-put k j v b
      ∙ if_false (str_eq k j) (some v) (get j b) (other_key p k j h e)
      ∙ r j
      ∙ if_false (p j) (get j b) (get j a) e
      ∙ sym (if_false (p j) (get j (put k v b)) (get j a) e)
]

AgreeBut-remove :
    (p : String → Bool) (k : String) (a b : Fields)
    → p k ≡ true
    → AgreeBut p a b
    → AgreeBut p a (remove k b)
AgreeBut-remove p k a b h r j = elim (Bool-cases (p j)) [
  | inl e ↦ sym (if_true (p j) (get j (remove k b)) (get j a) e)
  | inr e ↦
      get-remove k j b
      ∙ if_false (str_eq k j) none (get j b) (other_key p k j h e)
      ∙ r j
      ∙ if_false (p j) (get j b) (get j a) e
      ∙ sym (if_false (p j) (get j (remove k b)) (get j a) e)
]

AgreeBut-refl : (p : String → Bool) (a : Fields) → AgreeBut p a a
AgreeBut-refl p a j = if_intro (λ x. get j a ≡ x) (p j) (get j a) (get j a) (λ e. refl) (λ e. refl)

AgreeBut-repair_h2 : (a b : Fields) → AgreeBut is_owned a b → AgreeBut is_owned a (repair_h2 b).0
unfolding repair_h2
AgreeBut-repair_h2 a b h =
    if_intro {A = Fields × List Change} (λ r. AgreeBut is_owned a r.0)
      (text_eq (string_of (get "network" b)) (bytes "h2")) _ (b, [])
      (λ e. AgreeBut-remove is_owned "httpSettings" a _ refl (
        AgreeBut-put is_owned "xhttpSettings" _ a _ refl
          (AgreeBut-put is_owned "network" _ a b refl h)))
      (λ e. h)

module _ (trimmed : Bytes → Bytes) where
  KeptValue-fix_tls :
      (ss : Fields) (v : Option Json) (o : Option Fields)
      → get "tlsSettings" ss ≡ v
      → o ≡ fix_tls trimmed v
      → KeptMembers ss (set_tls ss o).0
  unfolding fix_tls set_tls set_pin
  KeptValue-fix_tls ss v none e q = (AgreeBut-refl is_owned ss, inl refl)
  KeptValue-fix_tls ss none (some tls) e q = absurd cc
  KeptValue-fix_tls ss (some null) (some tls) e q = absurd cc
  KeptValue-fix_tls ss (some (bool b)) (some tls) e q = absurd cc
  KeptValue-fix_tls ss (some (num n)) (some tls) e q = absurd cc
  KeptValue-fix_tls ss (some (str s)) (some tls) e q = absurd cc
  KeptValue-fix_tls ss (some (arr xs)) (some tls) e q = absurd cc
  KeptValue-fix_tls ss (some (obj m)) (some tls) e q = (
    AgreeBut-put is_owned "tlsSettings" (obj tls) ss ss refl (AgreeBut-refl is_owned ss),
    inr (
      m,
      tls,
      e,
      get-put "tlsSettings" "tlsSettings" (obj tls) ss,
      kept (fix_pin trimmed (get pin_key m)) (sym q),
    ),
  )
    where
      kept : (x : Option Bytes) → set_pin m x ≡ some tls → AgreeBut (λ k. str_eq pin_key k) m tls
      kept none h = absurd cc
      kept (some pin) h = subst (AgreeBut (λ k. str_eq pin_key k) m) (some_inj h) (
          AgreeBut-put (λ k. str_eq pin_key k) pin_key (str pin) m m refl
            (AgreeBut-refl (λ k. str_eq pin_key k) m))

  pub KeptMembers-repair_members : (ss : Fields) → KeptMembers ss (repair_members trimmed ss).0
  unfolding repair_members repair_pin
  KeptMembers-repair_members ss =
      let r = (repair_pin trimmed ss).0 in
      let (a, t) =
        KeptValue-fix_tls ss (get "tlsSettings" ss) (fix_tls trimmed (get "tlsSettings" ss)) refl
          refl in
      (
        AgreeBut-repair_h2 ss r a,
        subst (KeptValue (AgreeBut (λ k. str_eq pin_key k)) (get "tlsSettings" ss))
            (sym (repair_h2-tls r)) t,
      )

module _ (lib : Reading) where
  IsKept-refl : (ob r : Outbound) → ob ≡ r → IsKept lib.floats ob r
  IsKept-refl ob r q =
      subst (IsKept lib.floats ob) q
        (record { tag = refl; protocol = refl; settings = refl; stream = inl refl })

  IsKept-rewritten :
      (ob : Outbound) (a ss : Fields) (cs : List Change) (r : Outbound) (ds : List Change)
      → ob.stream_settings ≡ some (obj a)
      → KeptMembers (decoded_fields lib.floats a) ss
      → rewritten ob (ss, cs) ≡ some (r, ds)
      → IsKept lib.floats ob r
  unfolding rewritten
  IsKept-rewritten ob a ss [] r ds e k q = IsKept-refl ob r (ap (λ x. x.0) (some_inj q))
  IsKept-rewritten ob a ss (c ∷ cs) r ds e k q =
      subst (IsKept lib.floats ob) (ap (λ x. x.0) (some_inj q))
        (record { tag = refl; protocol = refl; settings = refl; stream = inr (a, ss, e, refl, k) })

  IsKept-repair_stream :
      (ob : Outbound) (v : Option Json) (r : Outbound) (ds : List Change)
      → ob.stream_settings ≡ v
      → repair_stream lib ob v ≡ some (r, ds)
      → IsKept lib.floats ob r
  unfolding repair_stream reads decoded
  IsKept-repair_stream ob none r ds e q = IsKept-refl ob r (ap (λ x. x.0) (some_inj q))
  IsKept-repair_stream ob (some null) r ds e q = IsKept-refl ob r (ap (λ x. x.0) (some_inj q))
  IsKept-repair_stream ob (some (obj ss)) r ds e q =
      let m = decoded_fields lib.floats ss in
      let once = repair_members lib.trimmed m in
      elim (Bool-cases (reads_fields lib.floats ss)) [
        | inl d ↦
            IsKept-rewritten ob ss once.0 once.1 r ds e (KeptMembers-repair_members lib.trimmed m)
              (sym (if_true (reads_fields lib.floats ss) (rewritten ob once) none d) ∙ q)
        | inr d ↦
            absurd cc (sym (if_false (reads_fields lib.floats ss) (rewritten ob once) none d) ∙ q)
      ]
  IsKept-repair_stream ob (some (bool b)) r ds e q = absurd cc
  IsKept-repair_stream ob (some (num n)) r ds e q = absurd cc
  IsKept-repair_stream ob (some (str s)) r ds e q = absurd cc
  IsKept-repair_stream ob (some (arr xs)) r ds e q = absurd cc

  pub IsKept-repair_outbound :
      (ob r : Outbound) (ds : List Change)
      → repair_outbound lib ob ≡ some (r, ds)
      → IsKept lib.floats ob r
  unfolding repair_outbound
  IsKept-repair_outbound ob r ds q = IsKept-repair_stream ob ob.stream_settings r ds refl q
