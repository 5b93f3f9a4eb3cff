-- ===== src/Xray/Name/Link.antt =====
-- The links that the code writes, and the profile they stand for.
use mathlib.Core.Path.{ap₂}
use workspace_cli.Prelude.{
  All, Bytes, [], false, is_empty, refl, text_eq, ◌++◌, ◌∷◌, ◌≡◌, Bool-cases, ap, arith,
  either_false, if◌then◌else◌, inl, inr, length, text_eq→≡, ℕ, ◌&&◌, ◌+◌, ◌==◌, ◌||◌, ◌∙◌,
  text_eq_refl,
}
use workspace_cli.Xray.Name.{
  after_slash, base, dot_json, has_slash, profile_of_target, profiles_slash, relative_target,
  strip_slashes, trim_json,
}
use workspace_cli.Xray.Name.Valid.{IsNameChar}

has_slash-append :
    (xs ys : Bytes) → has_slash xs ≡ false → has_slash ys ≡ false → has_slash (xs ++ ys) ≡ false
unfolding has_slash
has_slash-append [] ys h k = k
has_slash-append (x ∷ xs) ys h k =
    let (a, b) = either_false (x == 47) (has_slash xs) h in
    ap₂ (λ p q. p || q) a (has_slash-append xs ys b k)

not-slash : (c : ℕ) → IsNameChar c → (c == 47) ≡ false
not-slash c h = ground arith

has_slash-IsNameChar : (name : Bytes) → All IsNameChar name → has_slash name ≡ false
unfolding has_slash
has_slash-IsNameChar [] h = refl
has_slash-IsNameChar (c ∷ cs) (a, b) =
    ap₂ (λ p q. p || q) (not-slash c a) (has_slash-IsNameChar cs b)

is_empty-append : (xs : Bytes) → is_empty (xs ++ dot_json) ≡ false
is_empty-append [] = refl
is_empty-append (x ∷ xs) = refl

strip_slashes-append : (xs : Bytes) → strip_slashes (xs ++ dot_json) ≡ xs ++ dot_json
unfolding strip_slashes
strip_slashes-append [] = refl
strip_slashes-append (x ∷ xs) =
    let rest = strip_slashes-append xs in
    ap₂ (λ b r. if b && x == 47 then [] else x ∷ r) (ap is_empty rest ∙ is_empty-append xs) rest

length-append : (xs : Bytes) → length (xs ++ dot_json) ≡ length xs + 5
length-append [] = refl
length-append (x ∷ xs) = let h = length-append xs in omega arith

-- A text with the suffix behind it is longer than the suffix.
longer : (x : ℕ) (xs : Bytes) → text_eq (x ∷ xs ++ dot_json) dot_json ≡ false
longer x xs = elim (Bool-cases (text_eq (x ∷ xs ++ dot_json) dot_json)) [
  | inl h ↦
      let p = ap length (text_eq→≡ (x ∷ xs ++ dot_json) dot_json h) in
      let q = length-append xs in absurd (omega arith)
  | inr h ↦ h
]

trim_json-append : (xs : Bytes) → trim_json (xs ++ dot_json) ≡ xs
unfolding trim_json
trim_json-append [] =
    ap (λ b. if b then [] else 46 ∷ trim_json (106 ∷ 115 ∷ 111 ∷ 110 ∷ [])) (text_eq_refl dot_json)
trim_json-append (x ∷ xs) = ap₂ (λ b r. if b then [] else x ∷ r) (longer x xs) (trim_json-append xs)

after_slash-profiles : (s : Bytes) → has_slash s ≡ false → after_slash (profiles_slash ++ s) ≡ s
unfolding after_slash has_slash
after_slash-profiles s h = ap (λ b. if b then after_slash s else s) h

-- For a name of the accepted characters, the profile that the relative link target stands for is
-- that name.
pub profile_of_target-relative_target :
    (name : Bytes) → All IsNameChar name → profile_of_target (relative_target name) ≡ name
unfolding profile_of_target base relative_target has_slash
profile_of_target-relative_target name h =
    let clear = has_slash-append name dot_json (has_slash-IsNameChar name h) refl in
    ap (λ t. trim_json (if is_empty t then 47 ∷ [] else after_slash t))
      (strip_slashes-append (profiles_slash ++ name))
    ∙ ap trim_json (after_slash-profiles (name ++ dot_json) clear)
    ∙ trim_json-append name
