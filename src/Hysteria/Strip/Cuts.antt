-- ===== src/Hysteria/Strip/Cuts.antt =====
-- The cuts that `stripPortHopping` makes, in both directions.
use mathlib.Core.List.{append_assoc}
use mathlib.Core.Path.{ap₂}
use workspace_cli.Hysteria.Hop.{contains}
use workspace_cli.Hysteria.Strip.{
  at_separator, behind, cut_scheme, ends_authority, span_authority, split_last, with_front,
}
use workspace_cli.Prelude.{
  ==_iff, All, Bool-cases, Bytes, Option, [], ap, both_iff, drop, false, if_false, if_intro,
  if_true, inl, inr, none, refl, some, sym, true, ℕ, ◌&&◌, ◌++◌, ◌==◌, ◌||◌, ◌∙◌, ◌∷◌, ◌≡◌, Bool,
}

-- "://"
abbrev pub colon_slashes : Bytes
colon_slashes = 58 ∷ 47 ∷ 47 ∷ []

-- No "://" begins in the scheme, when the rest follows it.
abbrev pub NoSeparator : Bytes → Bytes → Type 0
NoSeparator [] rest = Unit
NoSeparator (c ∷ cs) rest = (at_separator (c ∷ cs ++ rest) ≡ false) × NoSeparator cs rest

-- What the tail behind the authority begins with, if it is not empty.
abbrev pub IsTail : Bytes → Type 0
IsTail [] = Unit
IsTail (c ∷ cs) = ends_authority c ≡ true

-- A URI is cut at its first "://".
abbrev pub SchemeCut : Bytes → Option (Bytes × Bytes) → Type 0
SchemeCut s none = Unit
SchemeCut s (some (x, y)) =
    (scheme : Bytes) × (x ≡ scheme ++ colon_slashes)
    × NoSeparator scheme (colon_slashes ++ y)
    × (x ++ y ≡ s)

at_separator-take :
    (c : ℕ) (cs : Bytes) → at_separator (c ∷ cs) ≡ true → 58 ∷ 47 ∷ 47 ∷ drop 2 cs ≡ c ∷ cs
unfolding at_separator
at_separator-take c [] h = absurd cc
at_separator-take c (d ∷ []) h = absurd cc
at_separator-take c (d ∷ f ∷ cs) h =
    let (p, r) = (both_iff (c == 58 && d == 47) (f == 47)).0 h in
    let (a, b) = (both_iff (c == 58) (d == 47)).0 p in
    ap₂ (λ x y. x ∷ y) (sym ((==_iff c 58).0 a))
      (ap₂ (λ x y. x ∷ y ∷ cs) (sym ((==_iff d 47).0 b)) (sym ((==_iff f 47).0 r)))

with_front-SchemeCut :
    (c : ℕ) (s : Bytes) (o : Option (Bytes × Bytes))
    → at_separator (c ∷ s) ≡ false
    → SchemeCut s o
    → SchemeCut (c ∷ s) (with_front c o)
unfolding with_front
with_front-SchemeCut c s none n h = tt
with_front-SchemeCut c s (some (x, y)) n (scheme, p, k, q) =
    let whole : scheme ++ (colon_slashes ++ y) ≡ s =
      sym (append_assoc scheme colon_slashes y) ∙ ap (λ t. t ++ y) (sym p) ∙ q in
    (
      c ∷ scheme,
      ap (λ t. c ∷ t) p,
      (ap (λ t. at_separator (c ∷ t)) whole ∙ n, k),
      ap (λ t. c ∷ t) q,
    )

pub cut_scheme-SchemeCut : (s : Bytes) → SchemeCut s (cut_scheme s)
unfolding cut_scheme
cut_scheme-SchemeCut [] = tt
cut_scheme-SchemeCut (c ∷ cs) =
    if_intro (SchemeCut (c ∷ cs)) (at_separator (c ∷ cs)) _ _
      (λ h. ([], refl, tt, at_separator-take c cs h))
      (λ h. with_front-SchemeCut c cs (cut_scheme cs) h (cut_scheme-SchemeCut cs))

pub cut_scheme-append :
    (scheme y : Bytes)
    → NoSeparator scheme (colon_slashes ++ y)
    → cut_scheme (scheme ++ (colon_slashes ++ y)) ≡ some (scheme ++ colon_slashes, y)
unfolding cut_scheme with_front at_separator
cut_scheme-append [] y h = refl
cut_scheme-append (c ∷ cs) y (n, h) =
    if_false (at_separator (c ∷ cs ++ (colon_slashes ++ y))) _ _ n
    ∙ ap (with_front c) (cut_scheme-append cs y h)

pub span_authority-append : (s : Bytes) → (span_authority s).0 ++ (span_authority s).1 ≡ s
unfolding span_authority
span_authority-append [] = refl
span_authority-append (c ∷ cs) =
    if_intro (λ (p : Bytes × Bytes). p.0 ++ p.1 ≡ c ∷ cs) (ends_authority c) _ _ (λ _. refl)
      (λ _. ap (λ t. c ∷ t) (span_authority-append cs))

abbrev pub Clear : Bytes → Type 0
Clear s = All (λ c. ends_authority c ≡ false) s

pub span_authority-parts : (s : Bytes) → Clear (span_authority s).0 × IsTail (span_authority s).1
unfolding span_authority
span_authority-parts [] = (tt, tt)
span_authority-parts (c ∷ cs) =
    if_intro (λ (p : Bytes × Bytes). Clear p.0 × IsTail p.1) (ends_authority c) _ _ (λ h. (tt, h))
      (λ h. ((h, (span_authority-parts cs).0), (span_authority-parts cs).1))

pub span_authority-whole :
    (a tail : Bytes) → Clear a → IsTail tail → span_authority (a ++ tail) ≡ (a, tail)
unfolding span_authority
span_authority-whole [] [] h t = refl
span_authority-whole [] (c ∷ cs) h t = if_true (ends_authority c) _ _ t
span_authority-whole (c ∷ a) tail (n, h) t =
    if_false (ends_authority c) _ _ n
    ∙ ap (λ (p : Bytes × Bytes). (c ∷ p.0, p.1)) (span_authority-whole a tail h t)

-- The text behind the last of a byte has none of it.
abbrev pub Last : ℕ → Bytes → Option (Bytes × Bytes) → Type 0
Last b s none = contains b s ≡ false
Last b s (some (x, y)) = (x ++ b ∷ y ≡ s) × (contains b y ≡ false)

behind-Last :
    (b c : ℕ) (s : Bytes) (o : Option (Bytes × Bytes))
    → Last b s o
    → Last b (c ∷ s) (behind b s c o)
unfolding behind contains
behind-Last b c s (some (x, y)) (p, q) = (ap (λ t. c ∷ t) p, q)
behind-Last b c s none h =
    if_intro (Last b (c ∷ s)) (c == b) _ _ (λ p. (ap (λ t. t ∷ s) (sym ((==_iff c b).0 p)), h))
      (λ p. ap₂ (λ x y. x || y) p h)

pub split_last-Last : (b : ℕ) (s : Bytes) → Last b s (split_last b s)
unfolding split_last contains
split_last-Last b [] = refl
split_last-Last b (c ∷ cs) = behind-Last b c cs (split_last b cs) (split_last-Last b cs)

pub neither : (a b : Bool) → (a || b) ≡ false → (a ≡ false) × (b ≡ false)
neither false b h = (refl, h)
neither true b h = absurd cc

split_last-none : (b : ℕ) (s : Bytes) → contains b s ≡ false → split_last b s ≡ none
unfolding split_last contains behind
split_last-none b [] h = refl
split_last-none b (c ∷ cs) h =
    let (p, q) = neither (c == b) (contains b cs) h in
    ap (behind b cs c) (split_last-none b cs q) ∙ if_false (c == b) _ _ p

pub split_last-at :
    (b : ℕ) (name s : Bytes) → contains b s ≡ false → split_last b (name ++ b ∷ s) ≡ some (name, s)
unfolding split_last behind
split_last-at b [] s h =
    ap (behind b s b) (split_last-none b s h) ∙ if_true (b == b) _ _ ((==_iff b b).1 refl)
split_last-at b (c ∷ cs) s h = ap (behind b (cs ++ b ∷ s) c) (split_last-at b cs s h)

-- Text in which the byte is not comes behind the cut.
abbrev pub extended : Bytes → Option (Bytes × Bytes) → Option (Bytes × Bytes)
extended s none = none
extended s (some (x, y)) = some (x, y ++ s)

behind-extended :
    (b c : ℕ) (cs s : Bytes) (o : Option (Bytes × Bytes))
    → behind b (cs ++ s) c (extended s o) ≡ extended s (behind b cs c o)
unfolding behind
behind-extended b c cs s (some (x, y)) = refl
behind-extended b c cs s none = elim (Bool-cases (c == b)) [
  | inl p ↦ if_true (c == b) _ _ p ∙ sym (ap (extended s) (if_true (c == b) _ _ p))
  | inr p ↦ if_false (c == b) _ _ p ∙ sym (ap (extended s) (if_false (c == b) _ _ p))
]

pub split_last-append :
    (b : ℕ) (name s : Bytes)
    → contains b s ≡ false
    → split_last b (name ++ s) ≡ extended s (split_last b name)
unfolding split_last
split_last-append b [] s h = split_last-none b s h
split_last-append b (c ∷ cs) s h =
    ap (behind b (cs ++ s) c) (split_last-append b cs s h)
    ∙ behind-extended b c cs s (split_last b cs)
