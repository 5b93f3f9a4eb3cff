-- ===== src/Xray/Name/Valid.antt =====
-- What a valid profile name is.
-- A lower-case letter, a digit, an underscore or a dash.
use workspace_cli.Prelude.{
  All, arith, length, true, ℕ, ◌≡◌, ◌≢◌, ◌≤◌, ◌⊎◌, Bytes, [], both_iff, false, none, refl, ◌↔◌, ◌∷◌,
  Bool, false≢true, if◌then◌else◌, is_empty, leb, leb→le, le→leb, some, sym, text_eq, text_eq_iff,
  ◌&&◌, ◌||◌,
}
use workspace_cli.Xray.Name.{
  config_name, name_char, tmp_name, all_name_chars, is_reserved, matches_name,
  validate_profile_name, malformed, reserved,
}

abbrev pub IsNameChar : ℕ → Type 0
IsNameChar c = (97 ≤ c × c ≤ 122) ⊎ (48 ≤ c × c ≤ 57) ⊎ (c ≡ 95) ⊎ (c ≡ 45)

abbrev pub ValidName : Bytes → Type 0
ValidName name =
    (All IsNameChar name × (1 ≤ length name) × (length name ≤ 32))
    × (name ≢ config_name)
    × (name ≢ tmp_name)

name_char-IsNameChar : (c : ℕ) → name_char c ≡ true → IsNameChar c
unfolding name_char
name_char-IsNameChar c h = ground arith

IsNameChar-name_char : (c : ℕ) → IsNameChar c → name_char c ≡ true
unfolding name_char
IsNameChar-name_char c h = ground arith

pub all_name_chars-All : (name : Bytes) → all_name_chars name ≡ true → All IsNameChar name
unfolding all_name_chars
all_name_chars-All [] h = tt
all_name_chars-All (c ∷ cs) h =
    let (a, b) = (both_iff (name_char c) (all_name_chars cs)).0 h in
    (name_char-IsNameChar c a, all_name_chars-All cs b)

All-all_name_chars : (name : Bytes) → All IsNameChar name → all_name_chars name ≡ true
unfolding all_name_chars
All-all_name_chars [] h = refl
All-all_name_chars (c ∷ cs) (a, b) =
    (both_iff (name_char c) (all_name_chars cs)).1
      (IsNameChar-name_char c a, All-all_name_chars cs b)

matches_name_iff :
    (name : Bytes)
    → (matches_name name ≡ true) ↔ (All IsNameChar name × (1 ≤ length name) × (length name ≤ 32))
unfolding matches_name
matches_name_iff name =
    let all = all_name_chars name in
    let low = leb 1 (length name) in
    let high = leb (length name) 32 in
    (
      (λ h.
          let (a, t) = (both_iff all (low && high)).0 h in
          let (b, c) = (both_iff low high).0 t in
          (all_name_chars-All name a, leb→le 1 _ b, leb→le _ 32 c)),
      λ (a, b, c).
          (both_iff all (low && high)).1
            (All-all_name_chars name a, (both_iff low high).1 (le→leb 1 _ b, le→leb _ 32 c)),
    )

empty-matches_name : (name : Bytes) → is_empty name ≡ true → matches_name name ≡ false
unfolding matches_name all_name_chars
empty-matches_name [] h = refl
empty-matches_name (c ∷ cs) h = absurd cc

-- The two tests, by their values.
decide :
    (name : Bytes) (P : Type 0) (a b c m : Bool)
    → (a ≡ true ↔ name ≡ config_name)
    → (b ≡ true ↔ name ≡ tmp_name)
    → (c ≡ true → m ≡ false)
    → (m ≡ true ↔ P)
    → ((if a || b || c then some reserved else if m then none else some malformed) ≡ none)
      ↔ (P × (name ≢ config_name) × (name ≢ tmp_name))
decide name P true b c m x y z w = ((λ h. absurd cc), λ (p, n, k). absurd (n (x.0 refl)))
decide name P false true c m x y z w = ((λ h. absurd cc), λ (p, n, k). absurd (k (y.0 refl)))
decide name P false false true true x y z w = absurd (false≢true (sym (z refl)))
decide name P false false true false x y z w =
    ((λ h. absurd cc), λ (p, n, k). absurd (false≢true (w.1 p)))
decide name P false false false true x y z w =
    ((λ h. (w.0 refl, (λ q. false≢true (x.1 q)), (λ q. false≢true (y.1 q)))), λ r. refl)
decide name P false false false false x y z w =
    ((λ h. absurd cc), λ (p, n, k). absurd (false≢true (w.1 p)))

-- A name is accepted exactly when it has 1 to 32 characters, each a lower-case letter, a digit, an
-- underscore or a dash, and it is neither "config" nor "tmp".
pub validate_profile_name-ValidName :
    (name : Bytes) → (validate_profile_name name ≡ none) ↔ ValidName name
unfolding validate_profile_name is_reserved
validate_profile_name-ValidName name =
    decide name _ (text_eq name config_name) (text_eq name tmp_name) (is_empty name)
      (matches_name name) (text_eq_iff name config_name) (text_eq_iff name tmp_name)
      (empty-matches_name name) (matches_name_iff name)
