-- ===== src/Prelude/Strings.antt =====
-- Go strings as lists of bytes: equality, and the parts of a path.
use Prim.Native.Nat.{ℕ}
use mathlib.Core.Bool.{Bool, true, false, ◌&&◌, ◌||◌}
use mathlib.Core.List.{List, [], ◌∷◌}
use mathlib.Core.Logic.{◌↔◌, ◌≢◌, inl, inr}
use mathlib.Core.Path.{◌≡◌, ap₂, refl, subst}
use workspace_cli.Prelude.Tests.{◌==◌, ==_iff, Bool-cases}

abbrev pub Bytes : Type 0
Bytes = List ℕ

unfoldable pub text_eq : Bytes → Bytes → Bool
text_eq [] [] = true
text_eq [] (y ∷ ys) = false
text_eq (x ∷ xs) [] = false
text_eq (x ∷ xs) (y ∷ ys) = (x == y) && text_eq xs ys

pub both_iff : (a b : Bool) → ((a && b) ≡ true) ↔ ((a ≡ true) × (b ≡ true))
both_iff true b = ((λ h. (refl, h)), λ h. h.1)
both_iff false b = ((λ h. absurd cc), λ h. h.0)

pub text_eq→≡ : (xs ys : Bytes) → text_eq xs ys ≡ true → xs ≡ ys
unfolding text_eq
text_eq→≡ [] [] h = refl
text_eq→≡ [] (y ∷ ys) h = absurd cc
text_eq→≡ (x ∷ xs) [] h = absurd cc
text_eq→≡ (x ∷ xs) (y ∷ ys) h =
    let (a, b) = (both_iff (x == y) (text_eq xs ys)).0 h in
    ap₂ (λ c cs. c ∷ cs) ((==_iff x y).0 a) (text_eq→≡ xs ys b)

pub text_eq_refl : (xs : Bytes) → text_eq xs xs ≡ true
unfolding text_eq
text_eq_refl [] = refl
text_eq_refl (x ∷ xs) = ap₂ (λ a b. a && b) ((==_iff x x).1 refl) (text_eq_refl xs)

pub text_eq_iff : (xs ys : Bytes) → (text_eq xs ys ≡ true) ↔ (xs ≡ ys)
text_eq_iff xs ys = (text_eq→≡ xs ys, λ p. subst (λ z. text_eq xs z ≡ true) p (text_eq_refl xs))

pub either_false : (a b : Bool) → (a || b) ≡ false → (a ≡ false) × (b ≡ false)
either_false true b h = absurd cc
either_false false b h = (refl, h)

pub false≢true : false ≡ true → ⊥
false≢true h = cc

pub text_eq_other : (xs ys : Bytes) → xs ≢ ys → text_eq xs ys ≡ false
text_eq_other xs ys h = elim (Bool-cases (text_eq xs ys)) [
  | inl p ↦ absurd (h (text_eq→≡ xs ys p))
  | inr p ↦ p
]

pub or_true : (a : Bool) → (a || true) ≡ true
or_true true = refl
or_true false = refl
