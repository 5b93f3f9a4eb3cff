-- ===== src/Docker/Create/Address.antt =====
-- The check that no foreign container holds the proxy's address.
use workspace_cli.Docker.Client.{Endpoint}
use workspace_cli.Docker.Create.{check_address, foreign_holder, held_by, address_of}
use workspace_cli.Docker.Routes.{Settings}
use workspace_cli.Prelude.{
  ◌≡◌, ◌≢◌, ◌⊎◌, All, Bool, List, Option, String, false, if◌then◌else◌, inl, inr, none, refl, some,
  true, ◌||◌, ◌↔◌, [], ap, eq_iff, str_eq, ◌∷◌, ==_iff, Bool-cases, Bytes, false≢true, if_false,
  if_intro, subst, sym, text_eq, text_eq_iff, ℕ, ◌++◌, ◌==◌, ◌∙◌,
}

-- The address alone, or with a prefix length.
abbrev pub HasAddress : Bytes → Bytes → Type 0
HasAddress ip a = All (λ c. c ≢ 47) a × ((ip ≡ a) ⊎ ((prefix : Bytes) × (ip ≡ a ++ 47 ∷ prefix)))

HasAddress-cons : (c : ℕ) (ip a : Bytes) → c ≢ 47 → HasAddress ip a → HasAddress (c ∷ ip) (c ∷ a)
HasAddress-cons c ip a n (h, inl q) = ((n, h), inl (ap (λ t. c ∷ t) q))
HasAddress-cons c ip a n (h, inr (prefix, q)) = ((n, h), inr (prefix, ap (λ t. c ∷ t) q))

address_of-HasAddress : (ip : Bytes) → HasAddress ip (address_of ip)
unfolding address_of
address_of-HasAddress [] = (tt, inl refl)
address_of-HasAddress (c ∷ ip) =
    if_intro (HasAddress (c ∷ ip)) (c == 47) _ _
      (λ p. (tt, inr (ip, ap (λ x. x ∷ ip) ((==_iff c 47).0 p))))
      λ p.
        HasAddress-cons c ip (address_of ip) (λ q. false≢true (sym p ∙ (==_iff c 47).1 q))
          (address_of-HasAddress ip)

address_of-cons : (c : ℕ) (ip : Bytes) → c ≢ 47 → address_of (c ∷ ip) ≡ c ∷ address_of ip
unfolding address_of
address_of-cons c ip n = elim (Bool-cases (c == 47)) [
  | inl p ↦ absurd (n ((==_iff c 47).0 p))
  | inr p ↦ if_false (c == 47) _ _ p
]

address_of-whole : (a : Bytes) → All (λ c. c ≢ 47) a → address_of a ≡ a
unfolding address_of
address_of-whole [] h = refl
address_of-whole (c ∷ a) (n, h) = address_of-cons c a n ∙ ap (λ t. c ∷ t) (address_of-whole a h)

address_of-prefixed : (a prefix : Bytes) → All (λ c. c ≢ 47) a → address_of (a ++ 47 ∷ prefix) ≡ a
unfolding address_of
address_of-prefixed [] prefix h = refl
address_of-prefixed (c ∷ a) prefix (n, h) =
    address_of-cons c (a ++ 47 ∷ prefix) n ∙ ap (λ t. c ∷ t) (address_of-prefixed a prefix h)

address_of_iff : (ip a : Bytes) → (address_of ip ≡ a) ↔ HasAddress ip a
address_of_iff ip a = (
  (λ q. subst (HasAddress ip) q (address_of-HasAddress ip)),
  λ (h, o). elim o [
    | inl q ↦ ap address_of q ∙ address_of-whole a h
    | inr (prefix, q) ↦ ap address_of q ∙ address_of-prefixed a prefix h
  ],
)

both_ways : {P Q R : Type 0} → P ↔ Q → Q ↔ R → P ↔ R
both_ways (f, g) (h, k) = ((λ p. h (f p)), λ r. g (k r))

module _ (cfg : Settings) where
  open cfg use {proxy_container, backup_name, proxy_ip}

  -- The endpoint is the proxy's, its backup's, or has another address.
  abbrev pub Clear : Endpoint → Type 0
  Clear ep = (ep.name ≡ proxy_container) ⊎ (ep.name ≡ backup_name) ⊎ (HasAddress ep.ip proxy_ip → ⊥)

  false-true : false ≡ true → ⊥
  false-true h = cc

  not-Clear :
      {ep : Endpoint}
      → (false ≡ true ↔ ep.name ≡ proxy_container)
      → (false ≡ true ↔ ep.name ≡ backup_name)
      → (true ≡ true ↔ HasAddress ep.ip proxy_ip)
      → Clear ep
      → ⊥
  not-Clear x y z (inl p) = false-true (x.1 p)
  not-Clear x y z (inr (inl p)) = false-true (y.1 p)
  not-Clear x y z (inr (inr n)) = n (z.0 refl)

  -- One endpoint, by its three tests.
  judge :
      (ep : Endpoint) (P : Type 0) (a b c : Bool) (rest : Option String)
      → (a ≡ true ↔ ep.name ≡ proxy_container)
      → (b ≡ true ↔ ep.name ≡ backup_name)
      → (c ≡ true ↔ HasAddress ep.ip proxy_ip)
      → (rest ≡ none ↔ P)
      → ((if a || b then rest else if c then some ep.name else rest) ≡ none) ↔ (Clear ep × P)
  judge ep P true b c rest x y z h = ((λ q. (inl (x.0 refl), h.0 q)), λ r. h.1 r.1)
  judge ep P false true c rest x y z h = ((λ q. (inr (inl (y.0 refl)), h.0 q)), λ r. h.1 r.1)
  judge ep P false false true rest x y z h =
      ((λ q. absurd cc), λ (c, p). absurd (not-Clear x y z c))
  judge ep P false false false rest x y z h =
      ((λ q. (inr (inr (λ p. false-true (z.1 p))), h.0 q)), λ r. h.1 r.1)

  foreign_holder-Clear : (eps : List Endpoint) → (foreign_holder cfg eps ≡ none) ↔ All Clear eps
  unfolding foreign_holder
  foreign_holder-Clear [] = ((λ h. tt), λ h. refl)
  foreign_holder-Clear (ep ∷ eps) =
      judge ep (All Clear eps) (str_eq ep.name proxy_container) (str_eq ep.name backup_name)
        (text_eq (address_of ep.ip) proxy_ip) (foreign_holder cfg eps) (eq_iff _ _) (eq_iff _ _)
        (both_ways (text_eq_iff _ _) (address_of_iff ep.ip proxy_ip)) (foreign_holder-Clear eps)

  held_by-none : (o : Option String) → held_by cfg o ≡ none → o ≡ none
  unfolding held_by
  held_by-none none h = refl
  held_by-none (some s) h = absurd cc

  -- The preflight's address check passes exactly when each endpoint on the proxy network is the
  -- proxy's, is its backup's, or has another address than the proxy's, with or without a prefix length.
  pub check_address-Clear :
      (eps : List Endpoint) → (check_address cfg (some eps) ≡ none) ↔ All Clear eps
  unfolding check_address
  check_address-Clear eps =
      let c = foreign_holder-Clear eps in
      ((λ h. c.0 (held_by-none _ h)), λ a. ap (held_by cfg) (c.1 a))
