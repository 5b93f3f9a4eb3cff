-- ===== src/NameRules/Regex.antt =====
-- Which names are accepted.
use mathlib.Core.Path.{ap₂}
use workspace_cli.NameRules.{
  NameFault, alnum, bad_characters, bad_length, matches_regex, matches_tail, proxy_name,
  shared_name, validate_name, validate_workspace_name, reserved_name,
}
use workspace_cli.Prelude.{
  ==_iff, All, Bool, Bool-cases, Bytes, Option, [], ap, arith, both_iff, if◌then◌else◌, inl, inr,
  length, ltb, none, not, or_true, refl, some, subst, sym, true, ℕ, ◌++◌, ◌==◌, ◌||◌, ◌↔◌, ◌∙◌, ◌∷◌,
  ◌≡◌, ◌≢◌, ◌≤◌, ◌⊎◌, either_false, false, false≢true, if_false, text_eq, text_eq_iff,
  text_eq_other,
}

abbrev pub IsAlnum : ℕ → Type 0
IsAlnum c = (97 ≤ c × c ≤ 122) ⊎ (48 ≤ c × c ≤ 57)

abbrev pub IsInner : ℕ → Type 0
IsInner c = IsAlnum c ⊎ (c ≡ 45)

-- The last character is a letter or digit, all before it may be dashes.
abbrev pub Tail : Bytes → Type 0
Tail cs = (mid : Bytes) × (d : ℕ) × (cs ≡ mid ++ d ∷ []) × All IsInner mid × IsAlnum d

-- A letter or digit at each end, and letters, digits and dashes between them.
abbrev pub Shape : Bytes → Type 0
Shape name = (c : ℕ) × (cs : Bytes) × (name ≡ c ∷ cs) × IsAlnum c × Tail cs

abbrev pub Accepted : Bytes → Type 0
Accepted name = Shape name × (2 ≤ length name) × (length name ≤ 64)

alnum→IsAlnum : (c : ℕ) → alnum c ≡ true → IsAlnum c
unfolding alnum
alnum→IsAlnum c h = ground arith

IsAlnum→alnum : (c : ℕ) → IsAlnum c → alnum c ≡ true
unfolding alnum
IsAlnum→alnum c h = ground arith

inner→IsInner : (c : ℕ) → (alnum c || c == 45) ≡ true → IsInner c
inner→IsInner c h = elim (Bool-cases (alnum c)) [
  | inl a ↦ inl (alnum→IsAlnum c a)
  | inr a ↦ inr ((==_iff c 45).0 (sym (ap (λ x. x || c == 45) a) ∙ h))
]

IsInner→inner : (c : ℕ) → IsInner c → (alnum c || c == 45) ≡ true
IsInner→inner c (inl a) = ap (λ x. x || c == 45) (IsAlnum→alnum c a)
IsInner→inner c (inr q) = ap (λ x. alnum c || x) ((==_iff c 45).1 q) ∙ or_true (alnum c)

matches_tail→Tail : (cs : Bytes) → matches_tail cs ≡ true → Tail cs
unfolding matches_tail
matches_tail→Tail [] h = absurd cc
matches_tail→Tail (c ∷ []) h = ([], c, refl, tt, alnum→IsAlnum c h)
matches_tail→Tail (c ∷ d ∷ cs) h =
    let (a, b) = (both_iff (alnum c || c == 45) (matches_tail (d ∷ cs))).0 h in
    let (mid, e, q, m, v) = matches_tail→Tail (d ∷ cs) b in
    (c ∷ mid, e, ap (λ t. c ∷ t) q, (inner→IsInner c a, m), v)

matches_tail-append :
    (mid : Bytes) (d : ℕ) → All IsInner mid → IsAlnum d → matches_tail (mid ++ d ∷ []) ≡ true
unfolding matches_tail
matches_tail-append [] d a v = IsAlnum→alnum d v
matches_tail-append (c ∷ []) d (h, a) v =
    (both_iff (alnum c || c == 45) (alnum d)).1 (IsInner→inner c h, IsAlnum→alnum d v)
matches_tail-append (c ∷ e ∷ mid) d (h, a) v =
    (both_iff (alnum c || c == 45) (matches_tail (e ∷ mid ++ d ∷ []))).1
      (IsInner→inner c h, matches_tail-append (e ∷ mid) d a v)

matches_regex-Shape : (name : Bytes) → (matches_regex name ≡ true) ↔ Shape name
unfolding matches_regex
matches_regex-Shape [] = ((λ h. absurd cc), λ (c, cs, q, a, t). absurd cc)
matches_regex-Shape (c ∷ cs) = (
  (λ h.
      let (a, b) = (both_iff (alnum c) (matches_tail cs)).0 h in
      (c, cs, refl, alnum→IsAlnum c a, matches_tail→Tail cs b)),
  λ (d, ds, q, a, (mid, e, p, m, v)).
      subst (λ t. matches_regex t ≡ true) (sym (q ∙ ap (λ t. d ∷ t) p))
        ((both_iff (alnum d) (matches_tail (mid ++ e ∷ []))).1
          (IsAlnum→alnum d a, matches_tail-append mid e m v)),
)

bounds : (n : ℕ) → ((ltb n 2 || ltb 64 n) ≡ false) ↔ (2 ≤ n × n ≤ 64)
bounds n = ((λ h. ground arith), λ h. ground arith)

-- No test stops the name.
unstopped :
    (b m : Bool) (rest : Option NameFault)
    → ((if b then some bad_length else if not m then some bad_characters else rest) ≡ none)
      ↔ ((b ≡ false) × (m ≡ true) × (rest ≡ none))
unstopped true m rest = ((λ h. absurd cc), λ (x, y, z). absurd (false≢true (sym x)))
unstopped false true rest = ((λ h. (refl, refl, h)), λ (x, y, z). z)
unstopped false false rest = ((λ h. absurd cc), λ (x, y, z). absurd (false≢true y))

not-reserved : (r : Bool) → (if r then some reserved_name else none) ≡ none → r ≡ false
not-reserved true h = absurd cc
not-reserved false h = refl

unreserved :
    (name : Bytes)
    → ((if text_eq name proxy_name || text_eq name shared_name then some reserved_name else none)
        ≡ none)
      ↔ ((name ≢ proxy_name) × (name ≢ shared_name))
unreserved name = (
  (λ h.
      let (a, b) =
        either_false (text_eq name proxy_name) (text_eq name shared_name) (not-reserved _ h) in
      (
        (λ q. false≢true (sym a ∙ (text_eq_iff name proxy_name).1 q)),
        (λ q. false≢true (sym b ∙ (text_eq_iff name shared_name).1 q)),
      )),
  λ (n, k).
      if_false (text_eq name proxy_name || text_eq name shared_name) _ _
        (ap₂ (λ x y. x || y) (text_eq_other name proxy_name n) (text_eq_other name shared_name k)),
)

to_Accepted :
    (name : Bytes)
    → (ltb (length name) 2 || ltb 64 (length name)) ≡ false
    → matches_regex name ≡ true
    → Accepted name
to_Accepted name b m =
    let (l, h) = (bounds (length name)).0 b in ((matches_regex-Shape name).0 m, l, h)

-- A workspace's name is accepted exactly when it has 2 to 64 characters, a lower-case letter or
-- digit at each end, and only these and dashes between; a profile's, when it is such a name, and
-- neither "proxy" nor "shared".
pub validate_name-Accepted :
    (name : Bytes)
    → ((validate_workspace_name name ≡ none) ↔ Accepted name)
      × ((validate_name name ≡ none) ↔ (Accepted name × (name ≢ proxy_name) × (name ≢ shared_name)))
unfolding validate_workspace_name validate_name
validate_name-Accepted name =
    let b = ltb (length name) 2 || ltb 64 (length name) in
    let m = matches_regex name in
    let r =
      if text_eq name proxy_name || text_eq name shared_name then some reserved_name else none in
    (
      (
        (λ h. let (x, y, z) = (unstopped b m none).0 h in to_Accepted name x y),
        λ (s, l, h).
            (unstopped b m none).1
              ((bounds (length name)).1 (l, h), (matches_regex-Shape name).1 s, refl),
      ),
      (
        (λ h.
            let (x, y, z) = (unstopped b m r).0 h in
            let (n, k) = (unreserved name).0 z in (to_Accepted name x y, n, k)),
        λ ((s, l, h), n, k). (unstopped b m r).1 (
          (bounds (length name)).1 (l, h),
          (matches_regex-Shape name).1 s,
          (unreserved name).1 (n, k),
        ),
      ),
    )
