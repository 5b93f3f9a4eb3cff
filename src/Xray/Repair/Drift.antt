-- ===== src/Xray/Repair/Drift.antt =====
-- The generators of outbounds beside the repair of stored ones.
pub mod Legacy
pub mod Generated
use workspace_cli.Prelude.{
  Bytes, String, ap, false, if_false, if_intro, none, refl, some, str_eq, text_eq, text_eq_iff,
  text_eq_other, true, ◌∙◌, ◌≡◌, ◌≢◌,
}
use workspace_cli.Vless.{
  VlessConfig, build_stream_settings, h2_settings, is_text, reality_settings, tls_settings,
  with_security, with_transport,
}
use workspace_cli.Xray.Repair.{fix_pin, fix_tls, set_pin, string_of}
use workspace_cli.Xray.Repair.Normal.Again.{Settled}
use workspace_cli.Xrayconf.Values.{
  Fields, Json, bytes, end, field, get, get-put, obj, put, str, text,
}

module _ (cfg : VlessConfig) where
  security_base : Fields
  security_base = field "network" (str cfg.network) (field "security" (str cfg.security) end)

  pub with_security-network :
      (ss : Fields) → get "network" (with_security cfg ss) ≡ get "network" ss
  unfolding with_security
  with_security-network ss =
      if_intro (λ x. get "network" x ≡ get "network" ss) (is_text cfg.security "reality") _ _
        (λ e. simp get-put)
        (λ e.
          if_intro (λ x. get "network" x ≡ get "network" ss) (is_text cfg.security "tls") _ ss
            (λ e. simp get-put) (λ e. refl))

  -- The network of what is built is the configuration's, but for h2.
  abbrev Built : Fields → Type 0
  Built ss = text_eq (string_of (get "network" ss)) (bytes "h2") ≡ false

  Built-kept :
      (ss : Fields)
      → get "network" ss ≡ some (str cfg.network)
      → text_eq cfg.network (bytes "h2") ≡ false
      → Built ss
  unfolding string_of
  Built-kept ss q n = ap (λ v. text_eq (string_of v) (bytes "h2")) q ∙ n

  Built-named :
      (s : String) (ss : Fields)
      → bytes s ≢ bytes "h2"
      → is_text cfg.network s ≡ true
      → get "network" ss ≡ some (str cfg.network)
      → Built ss
  Built-named s ss n e q = Built-kept ss q (
      ap (λ v. text_eq v (bytes "h2")) ((text_eq_iff cfg.network (bytes s)).0 e)
      ∙ text_eq_other (bytes s) (bytes "h2") n)

  put-network :
      (k : String) (v : Json) (ss : Fields)
      → str_eq k "network" ≡ false
      → get "network" ss ≡ some (str cfg.network)
      → get "network" (put k v ss) ≡ some (str cfg.network)
  put-network k v ss n q = get-put k "network" v ss ∙ if_false (str_eq k "network") _ _ n ∙ q

  with_transport-Built :
      (ss : Fields) → get "network" ss ≡ some (str cfg.network) → Built (with_transport cfg ss)
  unfolding with_transport string_of
  with_transport-Built ss q =
      if_intro Built (is_text cfg.network "tcp") _ _
        (λ e.
          Built-named "tcp" _ (λ z. cc) e
            (if_intro (λ x. get "network" x ≡ some (str cfg.network))
              (is_text cfg.header_type "http") _ ss (λ z. put-network "tcpSettings" _ ss refl q)
              (λ z. q)))
        (λ e₁.
          if_intro Built (is_text cfg.network "ws") _ _
            (λ e. Built-named "ws" _ (λ z. cc) e (put-network "wsSettings" _ ss refl q))
            (λ e₂.
              if_intro Built (is_text cfg.network "grpc") _ _
                (λ e. Built-named "grpc" _ (λ z. cc) e (put-network "grpcSettings" _ ss refl q))
                (λ e₃.
                  if_intro Built (is_text cfg.network "h2") _ _ (λ e. xhttp-Built)
                    (λ e₄.
                      if_intro Built (is_text cfg.network "httpupgrade") _ _
                        (λ e.
                          Built-named "httpupgrade" _ (λ z. cc) e
                            (put-network "httpupgradeSettings" _ ss refl q))
                        (λ e₅.
                          if_intro Built (is_text cfg.network "xhttp") _ ss
                            (λ e.
                              Built-named "xhttp" _ (λ z. cc) e
                                (put-network "xhttpSettings" _ ss refl q))
                            (λ e₆. Built-kept ss q e₄))))))
    where
      xhttp-Built :
          Built (put "xhttpSettings" (obj (h2_settings cfg)) (put "network" (text "xhttp") ss))
      xhttp-Built =
          ap (λ v. text_eq (string_of v) (bytes "h2"))
            (get-put "xhttpSettings" "network" (obj (h2_settings cfg))
                (put "network" (text "xhttp") ss)
              ∙ get-put "network" "network" (text "xhttp") ss)
          ∙ text_eq_other (bytes "xhttp") (bytes "h2") (λ z. cc)

  -- No transport writes the TLS settings.
  with_transport-tls :
      (ss : Fields) → get "tlsSettings" (with_transport cfg ss) ≡ get "tlsSettings" ss
  unfolding with_transport
  with_transport-tls ss =
      let P = λ (x : Fields). get "tlsSettings" x ≡ get "tlsSettings" ss in
      if_intro P (is_text cfg.network "tcp") _ _
        (λ e.
          if_intro P (is_text cfg.header_type "http") _ ss
            (λ z. get-put "tcpSettings" "tlsSettings" _ ss) (λ z. refl))
        (λ e₁.
          if_intro P (is_text cfg.network "ws") _ _ (λ e. get-put "wsSettings" "tlsSettings" _ ss)
            (λ e₂.
              if_intro P (is_text cfg.network "grpc") _ _
                (λ e. get-put "grpcSettings" "tlsSettings" _ ss)
                (λ e₃.
                  if_intro P (is_text cfg.network "h2") _ _
                    (λ e.
                      get-put "xhttpSettings" "tlsSettings" _ (put "network" (text "xhttp") ss)
                      ∙ get-put "network" "tlsSettings" _ ss)
                    (λ e₄.
                      if_intro P (is_text cfg.network "httpupgrade") _ _
                        (λ e. get-put "httpupgradeSettings" "tlsSettings" _ ss)
                        (λ e₅.
                          if_intro P (is_text cfg.network "xhttp") _ ss
                            (λ e. get-put "xhttpSettings" "tlsSettings" _ ss) (λ e₆. refl))))))

  with_security-pin :
      (trimmed : Bytes → Bytes)
      → fix_tls trimmed (get "tlsSettings" (with_security cfg security_base)) ≡ none
  unfolding with_security security_base fix_tls get fix_pin set_pin
  with_security-pin trimmed =
      let P = λ (x : Fields). fix_tls trimmed (get "tlsSettings" x) ≡ none in
      if_intro P (is_text cfg.security "reality") _ _
        (λ e.
          ap (fix_tls trimmed)
            (get-put "realitySettings" "tlsSettings" (reality_settings cfg) security_base))
        (λ e.
          if_intro P (is_text cfg.security "tls") _ security_base
            (λ z.
              ap (fix_tls trimmed)
                (get-put "tlsSettings" "tlsSettings" (tls_settings cfg) security_base))
            (λ z. refl))

  pub build_stream_settings-Settled :
      (trimmed : Bytes → Bytes) → Settled trimmed (build_stream_settings cfg)
  unfolding build_stream_settings security_base get
  build_stream_settings-Settled trimmed = (
    ap (fix_tls trimmed) (with_transport-tls (with_security cfg security_base))
        ∙ with_security-pin trimmed,
    with_transport-Built (with_security cfg security_base) (with_security-network security_base),
  )
