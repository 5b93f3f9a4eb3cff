-- ===== src/Xray/Repair/Drift/Legacy.antt =====
-- The repair of a stored h2 stream, and what is generated for h2 now.
use workspace_cli.Prelude.{
  [], Bool-cases, List, Option, String, ap, eq_iff, if_false, if_intro, if_true, if◌then◌else◌, inl,
  inr, none, refl, some, str_eq, sym, text_eq, text_eq_refl, true, ◌∙◌, ◌∷◌, ◌≡◌,
}
use workspace_cli.Vless.{
  VlessConfig, build_stream_settings, h2_settings, is_text, with_security, with_transport,
}
use workspace_cli.Xray.Repair.{Change, first_host, migrated_h2, repair_h2, string_of, xhttp_of}
use workspace_cli.Xray.Repair.Drift.{with_security-network}
use workspace_cli.Xray.Repair.Normal.Again.{is_h2}
use workspace_cli.Xrayconf.Values.{
  Fields, Json, arr, bytes, cons, end, field, get, get-put, get-remove, nil, obj, put, remove, str,
  text,
}

module _ (cfg : VlessConfig) where
  -- A stream of the transport that xray has removed, with the host as a list.
  abbrev pub legacy_stream : Fields
  legacy_stream =
      put "httpSettings"
        (obj (field "path" (str cfg.path) (field "host" (arr (cons (str cfg.host) nil)) end)))
        (with_security cfg (field "network" (text "h2") (field "security" (str cfg.security) end)))

  -- The same configuration, over the transport h2.
  abbrev pub over_h2 : VlessConfig
  over_h2 = record cfg { network = bytes "h2" }

module _ (cfg : VlessConfig) where
  secured : Fields
  secured =
      with_security cfg (field "network" (text "h2") (field "security" (str cfg.security) end))

  secured-http : get "httpSettings" secured ≡ none
  unfolding secured with_security get
  secured-http =
      let P = λ (x : Fields). get "httpSettings" x ≡ none in
      if_intro P (is_text cfg.security "reality") _ _ (λ e. simp get-put)
        (λ e. if_intro P (is_text cfg.security "tls") _ _ (λ z. simp get-put) (λ z. refl))

  built_h2 :
      build_stream_settings (over_h2 cfg)
      ≡ put "xhttpSettings" (obj (h2_settings cfg)) (put "network" (text "xhttp") secured)
  unfolding build_stream_settings with_transport secured text_eq with_security h2_settings
  built_h2 = refl

  http_members : Fields
  http_members = field "path" (str cfg.path) (field "host" (arr (cons (str cfg.host) nil)) end)

  legacy-network : is_h2 (legacy_stream cfg) ≡ true
  unfolding string_of get
  legacy-network =
      ap (λ v. text_eq (string_of v) (bytes "h2"))
        (get-put "httpSettings" "network" _ _ ∙ with_security-network cfg _)
      ∙ text_eq_refl (bytes "h2")

  xhttp_of-http : xhttp_of (some (obj http_members)) ≡ h2_settings cfg
  unfolding xhttp_of first_host string_of h2_settings http_members get
  xhttp_of-http = refl

  repaired_h2 :
      (repair_h2 (legacy_stream cfg)).0
      ≡ remove "httpSettings" (
          put "xhttpSettings"
            (obj (h2_settings cfg))
            (put "network" (text "xhttp") (legacy_stream cfg)))
  unfolding repair_h2 http_members
  repaired_h2 =
      let L = legacy_stream cfg in
      let once : Option Json → Fields = λ v.
        remove "httpSettings"
          (put "xhttpSettings" (obj (xhttp_of v)) (put "network" (text "xhttp") L)) in
      ap {A = Fields × List Change} (λ r. r.0)
        (if_true (is_h2 L) (once (get "httpSettings" L), migrated_h2 ∷ []) (L, []) legacy-network)
      ∙ ap once (get-put "httpSettings" "httpSettings" (obj http_members) _)
      ∙ ap
          (λ m.
            remove "httpSettings" (put "xhttpSettings" (obj m) (put "network" (text "xhttp") L)))
          xhttp_of-http

  put-alike :
      (j k : String) (v : Json) (a b : Fields)
      → get k a ≡ get k b
      → get k (put j v a) ≡ get k (put j v b)
  put-alike j k v a b q =
      get-put j k v a ∙ ap (λ x. if str_eq j k then some v else x) q ∙ sym (get-put j k v b)

  pub repair_h2-over_h2 :
      (k : String)
      → get k (repair_h2 (legacy_stream cfg)).0 ≡ get k (build_stream_settings (over_h2 cfg))
  unfolding secured
  repair_h2-over_h2 k =
      let X = obj (h2_settings cfg) in
      let N = put "network" (text "xhttp") (legacy_stream cfg) in
      ap (get k) repaired_h2
      ∙ get-remove "httpSettings" k (put "xhttpSettings" X N)
      ∙ elim (Bool-cases (str_eq "httpSettings" k)) [
        | inl e ↦
            if_true (str_eq "httpSettings" k) none (get k (put "xhttpSettings" X N)) e
            ∙ sym (
                ap (λ j. get j (put "xhttpSettings" X (put "network" (text "xhttp") secured)))
                  (sym ((eq_iff "httpSettings" k).0 e))
                ∙ get-put "xhttpSettings" "httpSettings" X (put "network" (text "xhttp") secured)
                ∙ get-put "network" "httpSettings" (text "xhttp") secured
                ∙ secured-http)
        | inr e ↦
            if_false (str_eq "httpSettings" k) none (get k (put "xhttpSettings" X N)) e
            ∙ put-alike "xhttpSettings" k X N (put "network" (text "xhttp") secured) (
                put-alike "network" k (text "xhttp") (legacy_stream cfg) secured
                  (get-put "httpSettings" k _ secured ∙ if_false (str_eq "httpSettings" k) _ _ e))
      ]
      ∙ ap (get k) (sym built_h2)
