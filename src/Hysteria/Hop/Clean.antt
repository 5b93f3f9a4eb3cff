-- ===== src/Hysteria/Hop/Clean.antt =====
-- Ports, and the bytes that separate them.
use mathlib.Core.Path.{ap₂}
use workspace_cli.Hysteria.Hop.{contains, digits_value, in_range, port_num, positive, unsigned}
use workspace_cli.Prelude.{
  Bool-cases, Bytes, Option, [], arith, false, if_false, if_true, inl, inr, leb, none, refl, some,
  sym, true, ℕ, ◌&&◌, ◌==◌, ◌||◌, ◌∙◌, ◌∷◌, ◌≡◌, ◌⊎◌,
}

abbrev pub Separator : ℕ → Type 0
Separator b = (b ≡ 44) ⊎ (b ≡ 45)

not-digit : (b c : ℕ) → Separator b → (leb 48 c && leb c 57) ≡ true → (c == b) ≡ false
not-digit b c h d = ground arith

not-plus : (b c : ℕ) → Separator b → (c == 43) ≡ true → (c == b) ≡ false
not-plus b c h d = ground arith

digits_value-clean :
    (b : ℕ) (s : Bytes) (n m : ℕ) → Separator b → digits_value n s ≡ some m → contains b s ≡ false
unfolding digits_value contains
digits_value-clean b [] n m h q = refl
digits_value-clean b (c ∷ cs) n m h q = elim (Bool-cases (leb 48 c && leb c 57)) [
  | inl d ↦
      ap₂ (λ x y. x || y) (not-digit b c h d)
        (digits_value-clean b cs _ m h (sym (if_true (leb 48 c && leb c 57) _ _ d) ∙ q))
  | inr d ↦ let bad : none ≡ some m = sym (if_false (leb 48 c && leb c 57) _ _ d) ∙ q in absurd cc
]

unsigned-clean :
    (b : ℕ) (s : Bytes) (m : ℕ) → Separator b → unsigned s ≡ some m → contains b s ≡ false
unfolding unsigned
unsigned-clean b [] m h q = absurd cc
unsigned-clean b (c ∷ cs) m h q = digits_value-clean b (c ∷ cs) 0 m h q

positive-clean :
    (b : ℕ) (s : Bytes) (m : ℕ) → Separator b → positive s ≡ some m → contains b s ≡ false
unfolding positive contains
positive-clean b [] m h q = refl
positive-clean b (c ∷ cs) m h q = elim (Bool-cases (c == 43)) [
  | inl d ↦
      ap₂ (λ x y. x || y) (not-plus b c h d)
        (unsigned-clean b cs m h (sym (if_true (c == 43) _ _ d) ∙ q))
  | inr d ↦
      let q' = sym (if_false (c == 43) _ _ d) ∙ q in
      elim (Bool-cases (c == 45)) [
        | inl e ↦ let bad : none ≡ some m = sym (if_true (c == 45) _ _ e) ∙ q' in absurd cc
        | inr e ↦ unsigned-clean b (c ∷ cs) m h (sym (if_false (c == 45) _ _ e) ∙ q')
      ]
]

in_range-positive : (o : Option ℕ) (n : ℕ) → in_range o ≡ some n → (m : ℕ) × (o ≡ some m)
unfolding in_range
in_range-positive none n q = absurd cc
in_range-positive (some m) n q = (m, refl)

pub port_num-clean :
    (b : ℕ) (s : Bytes) (n : ℕ) → Separator b → port_num s ≡ some n → contains b s ≡ false
unfolding port_num
port_num-clean b s n h q =
    let (m, p) = in_range-positive (positive s) n q in positive-clean b s m h p
