-- ===== src/Xray/Repair/Normal/Again.antt =====
-- A second repair.
use workspace_cli.Prelude.{
  Bool-cases, if_true, inl, inr, sym, ◌⊎◌, [], Bool, Bytes, List, ap, false, if_intro, none, refl,
  some, text_eq, ◌∙◌, ◌≡◌, Option, if_false, some_inj, subst, text_eq_other, ◌++◌, ◌∷◌,
}
use workspace_cli.Xray.Repair.{
  Change, Reading, fix_pin, pin_key, set_pin, fix_tls, repair_h2, repair_members, repair_pin,
  set_tls, string_of, repair_outbound, repair_stream, rewritten,
}
use workspace_cli.Xray.Repair.Normal.{repair_h2-tls, set_tls-settles}
use workspace_cli.Xrayconf.{Outbound}
use workspace_cli.Xrayconf.Decoded.{
  Floats, decoded, decoded_fields, decoded_member, reads, reads_fields, get-decoded_fields,
}
use workspace_cli.Xrayconf.Values.{
  Fields, bytes, get, get-put, get-remove, text, Json, arr, bool, null, num, obj, str,
}

abbrev pub is_h2 : Fields → Bool
is_h2 ss = text_eq (string_of (get "network" ss)) (bytes "h2")

repair_h2-settles : (ss : Fields) → is_h2 (repair_h2 ss).0 ≡ false
unfolding repair_h2
repair_h2-settles ss =
    if_intro {A = Fields × List Change} (λ r. is_h2 r.0 ≡ false) (is_h2 ss) _ (ss, [])
      (λ e. simp (get-remove, get-put) xhttp_other) (λ e. e)
  where
    xhttp_other : text_eq (string_of (some (text "xhttp"))) (bytes "h2") ≡ false
    xhttp_other = text_eq_other (bytes "xhttp") (bytes "h2") (λ q. cc)

module _ (trimmed : Bytes → Bytes) where
  -- Nothing is left to repair.
  abbrev pub Settled : Fields → Type 0
  Settled ss = (fix_tls trimmed (get "tlsSettings" ss) ≡ none) × (is_h2 ss ≡ false)

  pub repair_members-Settled : (ss : Fields) → Settled (repair_members trimmed ss).0
  unfolding repair_members repair_pin
  repair_members-Settled ss =
      let r = (repair_pin trimmed ss).0 in
      (
        ap (fix_tls trimmed) (repair_h2-tls r)
            ∙ set_tls-settles trimmed ss (fix_tls trimmed (get "tlsSettings" ss)) refl,
        repair_h2-settles r,
      )

  pub Settled-repair_members : (ss : Fields) → Settled ss → repair_members trimmed ss ≡ (ss, [])
  unfolding repair_members repair_pin set_tls repair_h2
  Settled-repair_members ss (p, n) =
      let pinned : repair_pin trimmed ss ≡ (ss, []) = ap (set_tls ss) p in
      ap {A = Fields × List Change} (λ r. ((repair_h2 r.0).0, r.1 ++ (repair_h2 r.0).1)) pinned
      ∙ if_false {A = Fields × List Change} (is_h2 ss) _ (ss, []) n

-- Decoding leaves what the repair reads.
module _ (floats : Floats) where
  string_of-decoded : (v : Option Json) → string_of (decoded_member floats v) ≡ string_of v
  unfolding string_of decoded
  string_of-decoded none = refl
  string_of-decoded (some null) = refl
  string_of-decoded (some (bool b)) = refl
  string_of-decoded (some (num n)) = refl
  string_of-decoded (some (str s)) = refl
  string_of-decoded (some (arr items)) = refl
  string_of-decoded (some (obj m)) = refl

  fix_pin-decoded :
      (trimmed : Bytes → Bytes) (v : Option Json)
      → fix_pin trimmed (decoded_member floats v) ≡ fix_pin trimmed v
  unfolding fix_pin decoded
  fix_pin-decoded trimmed none = refl
  fix_pin-decoded trimmed (some null) = refl
  fix_pin-decoded trimmed (some (bool b)) = refl
  fix_pin-decoded trimmed (some (num n)) = refl
  fix_pin-decoded trimmed (some (str s)) = refl
  fix_pin-decoded trimmed (some (arr items)) = refl
  fix_pin-decoded trimmed (some (obj m)) = refl

  set_pin-none : (m n : Fields) (o : Option Bytes) → set_pin m o ≡ none → set_pin n o ≡ none
  unfolding set_pin
  set_pin-none m n none h = refl
  set_pin-none m n (some pin) h = absurd cc

  fix_tls-decoded :
      (trimmed : Bytes → Bytes) (v : Option Json)
      → fix_tls trimmed v ≡ none
      → fix_tls trimmed (decoded_member floats v) ≡ none
  unfolding fix_tls decoded
  fix_tls-decoded trimmed none h = refl
  fix_tls-decoded trimmed (some null) h = refl
  fix_tls-decoded trimmed (some (bool b)) h = refl
  fix_tls-decoded trimmed (some (num n)) h = refl
  fix_tls-decoded trimmed (some (str s)) h = refl
  fix_tls-decoded trimmed (some (arr items)) h = refl
  fix_tls-decoded trimmed (some (obj m)) h =
      ap (λ v. set_pin (decoded_fields floats m) (fix_pin trimmed v))
        (get-decoded_fields floats pin_key m)
      ∙ ap (set_pin (decoded_fields floats m)) (fix_pin-decoded trimmed (get pin_key m))
      ∙ set_pin-none m (decoded_fields floats m) (fix_pin trimmed (get pin_key m)) h

  Settled-decoded :
      (trimmed : Bytes → Bytes) (ss : Fields)
      → Settled trimmed ss
      → Settled trimmed (decoded_fields floats ss)
  Settled-decoded trimmed ss (p, n) = (
    ap (fix_tls trimmed) (get-decoded_fields floats "tlsSettings" ss)
        ∙ fix_tls-decoded trimmed (get "tlsSettings" ss) p,
    ap (λ v. text_eq (string_of v) (bytes "h2")) (get-decoded_fields floats "network" ss)
        ∙ ap (λ s. text_eq s (bytes "h2")) (string_of-decoded (get "network" ss))
        ∙ n,
  )

module _ (lib : Reading) where
  -- A repair changes nothing.
  abbrev pub Calm : Outbound → Type 0
  Calm ob = (repair_outbound lib ob ≡ none) ⊎ (repair_outbound lib ob ≡ some (ob, []))

  pub Calm-Settled :
      (ob : Outbound) (ss : Fields)
      → ob.stream_settings ≡ some (obj ss)
      → Settled lib.trimmed ss
      → Calm ob
  unfolding repair_outbound repair_stream rewritten reads decoded
  Calm-Settled ob ss e h =
      let m = decoded_fields lib.floats ss in
      let once = rewritten ob (repair_members lib.trimmed m) in
      let read = ap (repair_stream lib ob) e in
      elim (Bool-cases (reads_fields lib.floats ss)) [
        | inl d ↦ inr (
            read
            ∙ if_true (reads_fields lib.floats ss) once none d
            ∙ ap (rewritten ob) (
                Settled-repair_members lib.trimmed m (Settled-decoded lib.floats lib.trimmed ss h)))
        | inr d ↦ inl (read ∙ if_false (reads_fields lib.floats ss) once none d)
      ]

  rewritten-again :
      (ob : Outbound) (ss : Fields) (cs : List Change) (r : Outbound) (ds : List Change)
      → Settled lib.trimmed ss
      → repair_outbound lib ob ≡ rewritten ob (ss, cs)
      → rewritten ob (ss, cs) ≡ some (r, ds)
      → Calm r
  unfolding rewritten
  rewritten-again ob ss [] r ds h e q = subst Calm (ap (λ x. x.0) (some_inj q)) (inr e)
  rewritten-again ob ss (c ∷ cs) r ds h e q =
      subst Calm (ap (λ x. x.0) (some_inj q))
        (Calm-Settled (record ob { stream_settings = some (obj ss) }) ss refl h)

  repair_stream-again :
      (ob : Outbound) (v : Option Json) (r : Outbound) (ds : List Change)
      → ob.stream_settings ≡ v
      → repair_stream lib ob v ≡ some (r, ds)
      → Calm r
  unfolding repair_stream repair_outbound reads decoded
  repair_stream-again ob none r ds e q =
      subst Calm (ap (λ x. x.0) (some_inj q)) (inr (ap (repair_stream lib ob) e))
  repair_stream-again ob (some null) r ds e q =
      subst Calm (ap (λ x. x.0) (some_inj q)) (inr (ap (repair_stream lib ob) e))
  repair_stream-again ob (some (obj ss)) r ds e q =
      let once = repair_members lib.trimmed (decoded_fields lib.floats ss) in
      let test = reads_fields lib.floats ss in
      elim (Bool-cases test) [
        | inl d ↦
            let read = if_true test (rewritten ob once) none d in
            rewritten-again ob once.0 once.1 r ds
              (repair_members-Settled lib.trimmed (decoded_fields lib.floats ss))
              (ap (repair_stream lib ob) e ∙ read) (sym read ∙ q)
        | inr d ↦ absurd cc (sym (if_false test (rewritten ob once) none d) ∙ q)
      ]
  repair_stream-again ob (some (bool b)) r ds e q = absurd cc
  repair_stream-again ob (some (num n)) r ds e q = absurd cc
  repair_stream-again ob (some (str s)) r ds e q = absurd cc
  repair_stream-again ob (some (arr xs)) r ds e q = absurd cc

  pub repair_outbound-again :
      (ob r : Outbound) (ds : List Change) → repair_outbound lib ob ≡ some (r, ds) → Calm r
  unfolding repair_outbound
  repair_outbound-again ob r ds q = repair_stream-again ob ob.stream_settings r ds refl q
