-- ===== src/Hysteria/Hop/Pieces.antt =====
-- Texts taken apart at a byte, and put together again.
use mathlib.Core.Path.{ap₂}
use workspace_cli.Hysteria.Hop.{contains, cut, split}
use workspace_cli.Prelude.{
  ==_iff, All, Bytes, List, Option, [], ap, false, if_intro, none, refl, some, sym, true, ℕ, ◌++◌,
  ◌==◌, ◌||◌, ◌∙◌, ◌∷◌, ◌≡◌, Bool, either_false, if_false, if_true, or_true,
}

abbrev pub glue : ℕ → Bytes × Option Bytes → Bytes
glue b (x, none) = x
glue b (x, some y) = x ++ b ∷ y

abbrev pub glue_all : ℕ → Bytes → List Bytes → Bytes
glue_all b x [] = x
glue_all b x (y ∷ ys) = x ++ b ∷ glue_all b y ys

or_assoc : (a b c : Bool) → (a || (b || c)) ≡ ((a || b) || c)
or_assoc true b c = refl
or_assoc false b c = refl

module _ (b : ℕ) where
  glue-front : (c : ℕ) (p : Bytes × Option Bytes) → glue b (c ∷ p.0, p.1) ≡ c ∷ glue b p
  glue-front c (x, none) = refl
  glue-front c (x, some y) = refl

  pub glue-cut : (s : Bytes) → glue b (cut b s) ≡ s
  unfolding cut
  glue-cut [] = refl
  glue-cut (c ∷ cs) =
      if_intro (λ (p : Bytes × Option Bytes). glue b p ≡ c ∷ cs) (c == b) _ _
        (λ h. ap (λ x. x ∷ cs) (sym ((==_iff c b).0 h)))
        (λ h. glue-front c (cut b cs) ∙ ap (λ x. c ∷ x) (glue-cut cs))

  glue_all-front :
      (c : ℕ) (x : Bytes) (ys : List Bytes) → glue_all b (c ∷ x) ys ≡ c ∷ glue_all b x ys
  glue_all-front c x [] = refl
  glue_all-front c x (y ∷ ys) = refl

  pub glue_all-split : (s : Bytes) → glue_all b (split b s).0 (split b s).1 ≡ s
  unfolding split
  glue_all-split [] = refl
  glue_all-split (c ∷ cs) =
      if_intro (λ (p : Bytes × List Bytes). glue_all b p.0 p.1 ≡ c ∷ cs) (c == b) _ _
        (λ h. ap₂ (λ x y. x ∷ y) (sym ((==_iff c b).0 h)) (glue_all-split cs))
        λ h. glue_all-front c (split b cs).0 (split b cs).1 ∙ ap (λ x. c ∷ x) (glue_all-split cs)

  pub cut-glue : (x y : Bytes) → contains b x ≡ false → cut b (x ++ b ∷ y) ≡ (x, some y)
  unfolding cut contains
  cut-glue [] y h = if_true (b == b) _ _ ((==_iff b b).1 refl)
  cut-glue (c ∷ cs) y h =
      let (p, q) = either_false (c == b) (contains b cs) h in
      if_false (c == b) _ _ p ∙ ap (λ (r : Bytes × Option Bytes). (c ∷ r.0, r.1)) (cut-glue cs y q)

  pub cut-whole : (x : Bytes) → contains b x ≡ false → cut b x ≡ (x, none)
  unfolding cut contains
  cut-whole [] h = refl
  cut-whole (c ∷ cs) h =
      let (p, q) = either_false (c == b) (contains b cs) h in
      if_false (c == b) _ _ p ∙ ap (λ (r : Bytes × Option Bytes). (c ∷ r.0, r.1)) (cut-whole cs q)

  pub split-whole : (x : Bytes) → contains b x ≡ false → split b x ≡ (x, [])
  unfolding split contains
  split-whole [] h = refl
  split-whole (c ∷ cs) h =
      let (p, q) = either_false (c == b) (contains b cs) h in
      if_false (c == b) _ _ p ∙ ap (λ (r : Bytes × List Bytes). (c ∷ r.0, r.1)) (split-whole cs q)

  pub split-glue :
      (x y : Bytes)
      → contains b x ≡ false
      → split b (x ++ b ∷ y) ≡ (x, (split b y).0 ∷ (split b y).1)
  unfolding split contains
  split-glue [] y h = if_true (b == b) _ _ ((==_iff b b).1 refl)
  split-glue (c ∷ cs) y h =
      let (p, q) = either_false (c == b) (contains b cs) h in
      if_false (c == b) _ _ p ∙ ap (λ (r : Bytes × List Bytes). (c ∷ r.0, r.1)) (split-glue cs y q)

  pub split-glue_all :
      (x : Bytes) (ys : List Bytes)
      → contains b x ≡ false
      → All (λ y. contains b y ≡ false) ys
      → split b (glue_all b x ys) ≡ (x, ys)
  split-glue_all x [] h a = split-whole x h
  split-glue_all x (y ∷ ys) h (k, a) =
      split-glue x (glue_all b y ys) h
      ∙ ap (λ (p : Bytes × List Bytes). (x, p.0 ∷ p.1)) (split-glue_all y ys k a)

  pub contains-append : (x y : Bytes) → contains b (x ++ y) ≡ (contains b x || contains b y)
  unfolding contains
  contains-append [] y = refl
  contains-append (c ∷ cs) y =
      ap (λ t. c == b || t) (contains-append cs y)
      ∙ or_assoc (c == b) (contains b cs) (contains b y)

  pub contains-glue : (x y : Bytes) → contains b (x ++ b ∷ y) ≡ true
  unfolding contains
  contains-glue x y =
      contains-append x (b ∷ y)
      ∙ ap (λ t. contains b x || (t || contains b y)) ((==_iff b b).1 refl)
      ∙ or_true (contains b x)
