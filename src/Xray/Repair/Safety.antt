-- ===== src/Xray/Repair/Safety.antt =====
-- The repair of a whole configuration.
use workspace_cli.Prelude.{
  [], All, Bool-cases, List, ap, false, if_false, if_intro, if_true, if◌then◌else◌, inl, inr, none,
  refl, some, subst, sym, true, ◌∙◌, ◌∷◌, ◌≡◌, ◌⊎◌,
}
use workspace_cli.Xray.Repair.{
  Change, Reading, Repaired, is_proxy, repair_config, repair_each, repair_outbound,
  replace_outbound,
}
use workspace_cli.Xray.Repair.Kept.{IsKept, IsKept-repair_outbound}
use workspace_cli.Xray.Repair.Normal.Again.{Calm, repair_outbound-again}
use workspace_cli.Xrayconf.{Outbound, XrayConfig}
use workspace_cli.Xrayconf.Decoded.{Floats}

-- An outbound and what stands in its place.
abbrev pub RepairedFrom : Floats → Outbound → Outbound → Type 0
RepairedFrom floats ob r = (r ≡ ob) ⊎ ((is_proxy ob.protocol ≡ true) × IsKept floats ob r)

abbrev pub Pairwise : (Outbound → Outbound → Type 0) → List Outbound → List Outbound → Type 0
Pairwise R [] [] = Unit
Pairwise R [] (y ∷ ys) = ⊥
Pairwise R (x ∷ xs) [] = ⊥
Pairwise R (x ∷ xs) (y ∷ ys) = R x y × Pairwise R xs ys

abbrev Both : Type 0
Both = List Outbound × List Change

module _ (lib : Reading) where
  replace_outbound-Pairwise :
      (ob : Outbound) (o : Repaired) (obs : List Outbound) (rest : Both)
      → is_proxy ob.protocol ≡ true
      → ((r : Outbound) (ds : List Change) → o ≡ some (r, ds) → IsKept lib.floats ob r)
      → Pairwise (RepairedFrom lib.floats) obs rest.0
      → Pairwise (RepairedFrom lib.floats) (ob ∷ obs) (replace_outbound ob o rest).0
  unfolding replace_outbound
  replace_outbound-Pairwise ob none obs (rs, cs) p k h = (inl refl, h)
  replace_outbound-Pairwise ob (some (r, [])) obs (rs, cs) p k h = (inl refl, h)
  replace_outbound-Pairwise ob (some (r, d ∷ ds)) obs (rs, cs) p k h =
      (inr (p, k r (d ∷ ds) refl), h)

  repair_each-Pairwise :
      (obs : List Outbound) → Pairwise (RepairedFrom lib.floats) obs (repair_each lib obs).0
  unfolding repair_each
  repair_each-Pairwise [] = tt
  repair_each-Pairwise (ob ∷ obs) = elim (Bool-cases (is_proxy ob.protocol)) [
    | inl e ↦
        subst {A = Both} (λ x. Pairwise (RepairedFrom lib.floats) (ob ∷ obs) x.0)
          (sym (
            if_true (is_proxy ob.protocol)
              (replace_outbound ob (repair_outbound lib ob) (repair_each lib obs))
              (ob ∷ (repair_each lib obs).0, (repair_each lib obs).1) e))
          (replace_outbound-Pairwise ob (repair_outbound lib ob) obs (repair_each lib obs) e
            (λ r ds. IsKept-repair_outbound lib ob r ds) (repair_each-Pairwise obs))
    | inr e ↦
        subst {A = Both} (λ x. Pairwise (RepairedFrom lib.floats) (ob ∷ obs) x.0)
          (sym (
            if_false (is_proxy ob.protocol)
              (replace_outbound ob (repair_outbound lib ob) (repair_each lib obs))
              (ob ∷ (repair_each lib obs).0, (repair_each lib obs).1) e))
          (inl refl, repair_each-Pairwise obs)
  ]

  -- A list of outbounds, none of which changes.
  abbrev pub Stable : Outbound → Type 0
  Stable ob =
      (is_proxy ob.protocol ≡ false)
      ⊎ ((repair_outbound lib ob ≡ none)
          ⊎ ((r : Outbound) × (repair_outbound lib ob ≡ some (r, []))))

  pub Stable-Calm : (ob : Outbound) → Calm lib ob → Stable ob
  Stable-Calm ob (inl e) = inr (inl e)
  Stable-Calm ob (inr e) = inr (inr (ob, e))

  pub Stable-repair_each : (obs : List Outbound) → All Stable obs → repair_each lib obs ≡ (obs, [])
  unfolding repair_each replace_outbound
  Stable-repair_each [] h = refl
  Stable-repair_each (ob ∷ obs) (s, h) =
      let rest = Stable-repair_each obs h in
      let once : Both → Both = λ r.
        if is_proxy ob.protocol
        then replace_outbound ob (repair_outbound lib ob) r
        else (ob ∷ r.0, r.1) in
      ap once rest ∙ unchanged s
    where
      unchanged :
          Stable ob
          → (if is_proxy ob.protocol
              then replace_outbound ob (repair_outbound lib ob) (obs, [])
              else (ob ∷ obs, []))
            ≡ (ob ∷ obs, [])
      unchanged (inl e) = if_false (is_proxy ob.protocol) _ _ e
      unchanged (inr (inl e)) =
          if_intro {A = Both} (λ x. x ≡ (ob ∷ obs, [])) (is_proxy ob.protocol) _ _
            (λ p. ap (λ o. replace_outbound ob o (obs, [])) e) (λ p. refl)
      unchanged (inr (inr (r, e))) =
          if_intro {A = Both} (λ x. x ≡ (ob ∷ obs, [])) (is_proxy ob.protocol) _ _
            (λ p. ap (λ o. replace_outbound ob o (obs, [])) e) (λ p. refl)

  replace_outbound-Stable :
      (ob : Outbound) (o : Repaired) (rest : Both)
      → repair_outbound lib ob ≡ o
      → All Stable rest.0
      → All Stable (replace_outbound ob o rest).0
  unfolding replace_outbound
  replace_outbound-Stable ob none (rs, cs) e h = (inr (inl e), h)
  replace_outbound-Stable ob (some (r, [])) (rs, cs) e h = (inr (inr (r, e)), h)
  replace_outbound-Stable ob (some (r, d ∷ ds)) (rs, cs) e h =
      (Stable-Calm r (repair_outbound-again lib ob r (d ∷ ds) e), h)

  repair_each-Stable : (obs : List Outbound) → All Stable (repair_each lib obs).0
  unfolding repair_each
  repair_each-Stable [] = tt
  repair_each-Stable (ob ∷ obs) =
      if_intro {A = Both} (λ x. All Stable x.0) (is_proxy ob.protocol) _
        (ob ∷ (repair_each lib obs).0, (repair_each lib obs).1)
        (λ e.
          replace_outbound-Stable ob (repair_outbound lib ob) (repair_each lib obs) refl
            (repair_each-Stable obs))
        (λ e. (inl e, repair_each-Stable obs))

-- The repair of a configuration changes its outbounds only; each of them stands, or is a proxy and
-- keeps its tag, protocol and settings, every member of its stream settings but tlsSettings, network,
-- xhttpSettings and httpSettings, and every member of its TLS settings but the certificate pin, each
-- as encoding/json decodes it, numbers as float64. A second repair finds nothing to change.
pub repair_config-IsRepair :
    (lib : Reading) (xc : XrayConfig)
    → ((repair_config lib xc).0 ≡ record xc { outbounds = (repair_config lib xc).0.outbounds })
      × Pairwise (RepairedFrom lib.floats) xc.outbounds (repair_config lib xc).0.outbounds
      × (repair_config lib (repair_config lib xc).0 ≡ ((repair_config lib xc).0, []))
unfolding repair_config
repair_config-IsRepair lib xc = (
  refl,
  repair_each-Pairwise lib xc.outbounds,
  ap {A = Both} (λ r. (record xc { outbounds = r.0 }, r.1))
      (Stable-repair_each lib (repair_each lib xc.outbounds).0
        (repair_each-Stable lib xc.outbounds)),
)
