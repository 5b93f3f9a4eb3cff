-- ===== src/Docker/Diagnose/Gateway.antt =====
-- The verdict on the output of `ip route show default`, of internal/docker/diagnose.go.
use mathlib.Core.Path.{ap₂}
use workspace_cli.Docker.Diagnose.{
  Runes, checked, classify_route_protection, default_route_of, first_via, lines, or_else,
  parse_default_route_via, route_protected, route_unprotected, via_of, via_word, fields_of,
}
use workspace_cli.Prelude.{
  [], All, Bool, Bool-cases, List, Option, Option-cases, ap, false≢true, if_false, if_true, inl,
  inr, none, refl, some, sym, text_eq, text_eq_iff, text_eq_other, text_eq_refl, true, ◌++◌, ◌↔◌,
  ◌∙◌, ◌∷◌, ◌≡◌, ◌≢◌, some_inj,
}

-- The value after the first "via" of a line's fields.
abbrev pub LineVia : List Runes → Runes → Type 0
LineVia fs ip =
    (front : List Runes) × (back : List Runes) × (fs ≡ front ++ via_word ∷ ip ∷ back)
    × All (λ f. f ≢ via_word) front

-- The value after the first "via" that has one, in the first line with such a "via".
abbrev pub RouteGateway : List Runes → Runes → Type 0
RouteGateway ls ip =
    (above : List Runes) × (l : Runes) × (below : List Runes) × (ls ≡ above ++ l ∷ below)
    × All (λ k. (v : Runes) → LineVia (fields_of k) v → ⊥) above
    × LineVia (fields_of l) ip

via_of→LineVia : (fs : List Runes) (ip : Runes) → via_of fs ≡ some ip → LineVia fs ip
unfolding via_of
via_of→LineVia [] ip h = absurd cc
via_of→LineVia (f ∷ []) ip h = absurd cc
via_of→LineVia (f ∷ g ∷ fs) ip h = elim (Bool-cases (text_eq f via_word)) [
  | inl t ↦
      let q = some_inj (sym (if_true (text_eq f via_word) (some g) (via_of (g ∷ fs)) t) ∙ h) in
      ([], fs, ap₂ (λ x y. x ∷ y ∷ fs) ((text_eq_iff f via_word).0 t) q, tt)
  | inr t ↦
      let (front, back, q, a) =
        via_of→LineVia (g ∷ fs) ip
          (sym (if_false (text_eq f via_word) (some g) (via_of (g ∷ fs)) t) ∙ h) in
      (
        f ∷ front,
        back,
        ap (λ r. f ∷ r) q,
        ((λ e. false≢true (sym t ∙ (text_eq_iff f via_word).1 e)), a),
      )
]

via_of-append :
    (front : List Runes) (ip : Runes) (back : List Runes)
    → All (λ f. f ≢ via_word) front
    → via_of (front ++ via_word ∷ ip ∷ back) ≡ some ip
unfolding via_of
via_of-append [] ip back a = if_true (text_eq via_word via_word) _ _ (text_eq_refl via_word)
via_of-append (f ∷ []) ip back (n, a) =
    if_false (text_eq f via_word) _ _ (text_eq_other f via_word n) ∙ via_of-append [] ip back tt
via_of-append (f ∷ g ∷ front) ip back (n, a) =
    if_false (text_eq f via_word) _ _ (text_eq_other f via_word n)
    ∙ via_of-append (g ∷ front) ip back a

LineVia→via_of : (fs : List Runes) (ip : Runes) → LineVia fs ip → via_of fs ≡ some ip
LineVia→via_of fs ip (front, back, q, a) = ap via_of q ∙ via_of-append front ip back a

first_via→RouteGateway :
    (ls : List Runes) (ip : Runes) → first_via ls ≡ some ip → RouteGateway ls ip
unfolding first_via or_else
first_via→RouteGateway [] ip h = absurd cc
first_via→RouteGateway (l ∷ ls) ip h = elim (Option-cases (via_of (fields_of l))) [
  | inl q ↦
      let (above, k, below, p, a, v) =
        first_via→RouteGateway ls ip (sym (ap (λ o. or_else o (first_via ls)) q) ∙ h) in
      (
        l ∷ above,
        k,
        below,
        ap (λ t. l ∷ t) p,
        ((λ x y. absurd cc (sym q ∙ LineVia→via_of (fields_of l) x y)), a),
        v,
      )
  | inr (x, q) ↦
      let e = sym (ap (λ o. or_else o (first_via ls)) q) ∙ h in
      ([], l, ls, refl, tt, via_of→LineVia (fields_of l) ip (q ∙ e))
]

no_via : (o : Option Runes) → ((v : Runes) → o ≡ some v → ⊥) → o ≡ none
no_via none n = refl
no_via (some v) n = absurd (n v refl)

first_via-append :
    (above : List Runes) (l : Runes) (below : List Runes) (ip : Runes)
    → All (λ k. (v : Runes) → LineVia (fields_of k) v → ⊥) above
    → LineVia (fields_of l) ip
    → first_via (above ++ l ∷ below) ≡ some ip
unfolding first_via or_else
first_via-append [] l below ip a v =
    ap (λ o. or_else o (first_via below)) (LineVia→via_of (fields_of l) ip v)
first_via-append (k ∷ above) l below ip (n, a) v =
    ap (λ o. or_else o (first_via (above ++ l ∷ below)))
      (no_via (via_of (fields_of k)) (λ x q. n x (via_of→LineVia (fields_of k) x q)))
    ∙ first_via-append above l below ip a v

first_via-RouteGateway :
    (ls : List Runes) (ip : Runes) → (first_via ls ≡ some ip) ↔ RouteGateway ls ip
first_via-RouteGateway ls ip = (
  first_via→RouteGateway ls ip,
  λ (above, l, below, q, a, v). ap first_via q ∙ first_via-append above l below ip a v,
)

module _ (is_ip : Runes → Bool) where
  -- The exec works, and the gateway of what it prints is the address ip.
  abbrev pub RoutesVia : Option Runes → Runes → Type 0
  RoutesVia answer ip =
      (out : Runes) × (answer ≡ some out) × RouteGateway (lines out) ip × (is_ip ip ≡ true)

  checked_inv :
      (o : Option Runes) (ip : Runes)
      → checked is_ip o ≡ some ip
      → (o ≡ some ip) × (is_ip ip ≡ true)
  unfolding checked
  checked_inv none ip h = absurd cc
  checked_inv (some v) ip h = elim (Bool-cases (is_ip v)) [
    | inl t ↦
        let q = some_inj (sym (if_true (is_ip v) (some v) none t) ∙ h) in
        (ap (λ x. some x) q, ap is_ip (sym q) ∙ t)
    | inr t ↦ absurd cc (sym (if_false (is_ip v) (some v) none t) ∙ h)
  ]

  default_route_of-RoutesVia :
      (answer : Option Runes) (ip : Runes)
      → (default_route_of is_ip answer ≡ some ip) ↔ RoutesVia answer ip
  unfolding default_route_of parse_default_route_via checked
  default_route_of-RoutesVia none ip = ((λ h. absurd cc), λ (out, q, g, t). absurd cc)
  default_route_of-RoutesVia (some out) ip = (
    (λ h.
        let (q, t) = checked_inv (first_via (lines out)) ip h in
        (out, refl, first_via→RouteGateway (lines out) ip q, t)),
    λ (o, q, g, t).
        ap (λ x. checked is_ip (first_via (lines x))) (some_inj q)
        ∙ ap (checked is_ip) ((first_via-RouteGateway (lines o) ip).1 g)
        ∙ if_true (is_ip ip) (some ip) none t,
  )

protected_inv :
    (o : Option Runes) (p : Runes)
    → (classify_route_protection o p ≡ route_protected) ↔ (o ≡ some p)
unfolding classify_route_protection
protected_inv none p = ((λ h. absurd cc), λ h. absurd cc)
protected_inv (some v) p = (
  (λ h. elim (Bool-cases (text_eq v p)) [
    | inl t ↦ ap (λ x. some x) ((text_eq_iff v p).0 t)
    | inr t ↦ absurd cc (sym (if_false (text_eq v p) route_protected route_unprotected t) ∙ h)
  ]),
  λ q. if_true (text_eq v p) _ _ ((text_eq_iff v p).1 (some_inj q)),
)

unprotected_inv :
    (o : Option Runes) (p : Runes)
    → (classify_route_protection o p ≡ route_unprotected) ↔ ((v : Runes) × (o ≡ some v) × (v ≢ p))
unfolding classify_route_protection
unprotected_inv none p = ((λ h. absurd cc), λ (v, q, n). absurd cc)
unprotected_inv (some v) p = (
  (λ h. (
    v,
    refl,
    λ q.
        absurd cc (
          sym (if_true (text_eq v p) route_protected route_unprotected ((text_eq_iff v p).1 q))
          ∙ h),
  )),
  λ (x, q, n). if_false (text_eq v p) _ _ (text_eq_other v p (λ e. n (sym (some_inj q) ∙ e))),
)

-- A container is reported as protected exactly when the exec works and the gateway of its default
-- route, the value after the first "via" that has one, is an address and is the proxy's; as
-- unprotected exactly when the exec works and the gateway is an address, but not the proxy's.
pub classify_route_protection-RoutesVia :
    (is_ip : Runes → Bool) (answer : Option Runes) (proxy_ip : Runes)
    → ((classify_route_protection (default_route_of is_ip answer) proxy_ip ≡ route_protected)
        ↔ RoutesVia is_ip answer proxy_ip)
      × ((classify_route_protection (default_route_of is_ip answer) proxy_ip ≡ route_unprotected)
          ↔ ((ip : Runes) × RoutesVia is_ip answer ip × (ip ≢ proxy_ip)))
classify_route_protection-RoutesVia is_ip answer p =
    let (a, b) = protected_inv (default_route_of is_ip answer) p in
    let (c, d) = unprotected_inv (default_route_of is_ip answer) p in
    (
      (
        (λ h. (default_route_of-RoutesVia is_ip answer p).0 (a h)),
        λ r. b ((default_route_of-RoutesVia is_ip answer p).1 r),
      ),
      (
        (λ h. let (v, q, n) = c h in (v, (default_route_of-RoutesVia is_ip answer v).0 q, n)),
        λ (v, r, n). d (v, (default_route_of-RoutesVia is_ip answer v).1 r, n),
      ),
    )
