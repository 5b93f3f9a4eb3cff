-- ===== src/Hysteria/Hop/Port.antt =====
-- The ports of a hop spec, by their text.
use workspace_cli.Hysteria.Hop.{digits_value, in_range, port_num, positive, unsigned}
use workspace_cli.Prelude.{
  ==_iff, All, Bool-cases, Bytes, Option, [], ap, arith, both_iff, false, false≢true, if_false,
  if_true, if◌then◌else◌, inl, inr, leb, leb→le, le→leb, none, refl, some, some_inj, subst, sym, ℕ,
  ◌&&◌, ◌*◌, ◌+◌, ◌-◌, ◌==◌, ◌↔◌, ◌∙◌, ◌∷◌, ◌≡◌, ◌≤◌, ◌⊎◌,
}

abbrev pub Digit : ℕ → Type 0
Digit c = (48 ≤ c) × (c ≤ 57)

-- The number that decimal digits stand for, behind the number n.
abbrev pub decimal : ℕ → Bytes → ℕ
decimal n [] = n
decimal n (c ∷ cs) = decimal (n * 10 + (c - 48)) cs

abbrev pub NotEmpty : Bytes → Type 0
NotEmpty [] = ⊥
NotEmpty (c ∷ cs) = Unit

-- One or more decimal digits, with or without a plus sign, for a number from 1 to 65535.
abbrev pub IsPort : Bytes → ℕ → Type 0
IsPort s n =
    (ds : Bytes) × ((s ≡ ds) ⊎ (s ≡ 43 ∷ ds))
    × NotEmpty ds
    × All Digit ds
    × (decimal 0 ds ≡ n)
    × (1 ≤ n)
    × (n ≤ 65535)

digits_value_iff :
    (m n : ℕ) (cs : Bytes) → (digits_value m cs ≡ some n) ↔ (All Digit cs × (decimal m cs ≡ n))
unfolding digits_value
digits_value_iff m n [] = ((λ h. (tt, some_inj h)), λ (a, h). ap some h)
digits_value_iff m n (c ∷ cs) = elim (Bool-cases (leb 48 c && leb c 57)) [
  | inl p ↦
      let (a, b) = (both_iff (leb 48 c) (leb c 57)).0 p in
      let e = if_true (leb 48 c && leb c 57) (digits_value (m * 10 + (c - 48)) cs) none p in
      let i = digits_value_iff (m * 10 + (c - 48)) n cs in
      (
        (λ h. let (x, y) = i.0 (sym e ∙ h) in (((leb→le 48 c a, leb→le c 57 b), x), y)),
        λ ((d, x), y). e ∙ i.1 (x, y),
      )
  | inr p ↦
      let e = if_false (leb 48 c && leb c 57) (digits_value (m * 10 + (c - 48)) cs) none p in
      (
        (λ h. let q = sym e ∙ h in absurd cc),
        λ ((d, x), y). absurd (
            false≢true
              (sym p ∙ (both_iff (leb 48 c) (leb c 57)).1 (le→leb 48 c d.0, le→leb c 57 d.1))),
      )
]

unsigned_iff :
    (n : ℕ) (cs : Bytes)
    → (unsigned cs ≡ some n) ↔ (NotEmpty cs × All Digit cs × (decimal 0 cs ≡ n))
unfolding unsigned
unsigned_iff n [] = ((λ h. absurd cc), λ (a, b, c). absurd a)
unsigned_iff n (c ∷ cs) =
    let i = digits_value_iff 0 n (c ∷ cs) in
    ((λ h. let (x, y) = i.0 h in (tt, x, y)), λ (a, x, y). i.1 (x, y))

abbrev Signed : Bytes → ℕ → Type 0
Signed s n =
    (ds : Bytes) × ((s ≡ ds) ⊎ (s ≡ 43 ∷ ds)) × NotEmpty ds × All Digit ds × (decimal 0 ds ≡ n)

positive→Signed : (s : Bytes) (n : ℕ) → positive s ≡ some n → Signed s n
unfolding positive
positive→Signed [] n h = absurd cc
positive→Signed (c ∷ cs) n h = elim (Bool-cases (c == 43)) [
  | inl p ↦
      let e = if_true (c == 43) (unsigned cs) (if c == 45 then none else unsigned (c ∷ cs)) p in
      let (x, y, z) = (unsigned_iff n cs).0 (sym e ∙ h) in
      (cs, inr (ap (λ t. t ∷ cs) ((==_iff c 43).0 p)), x, y, z)
  | inr p ↦
      let e = if_false (c == 43) (unsigned cs) (if c == 45 then none else unsigned (c ∷ cs)) p in
      elim (Bool-cases (c == 45)) [
        | inl q ↦ let r = sym (e ∙ if_true (c == 45) none (unsigned (c ∷ cs)) q) ∙ h in absurd cc
        | inr q ↦
            let r = sym (e ∙ if_false (c == 45) none (unsigned (c ∷ cs)) q) ∙ h in
            let (x, y, z) = (unsigned_iff n (c ∷ cs)).0 r in (c ∷ cs, inl refl, x, y, z)
      ]
]

Signed→positive :
    (ds : Bytes) (n : ℕ)
    → NotEmpty ds × All Digit ds × (decimal 0 ds ≡ n)
    → (positive ds ≡ some n) × (positive (43 ∷ ds) ≡ some n)
unfolding positive
Signed→positive [] n (a, b, c) = absurd a
Signed→positive (c ∷ cs) n (a, (d, b), q) =
    let u = (unsigned_iff n (c ∷ cs)).1 (a, (d, b), q) in
    let p : (c == 43) ≡ false = ground (arith, d.0, d.1) in
    let r : (c == 45) ≡ false = ground (arith, d.0, d.1) in
    (
      if_false (c == 43) _ _ p ∙ if_false (c == 45) _ _ r ∙ u,
      if_true (43 == 43) (unsigned (c ∷ cs)) none refl ∙ u,
    )

in_range_iff :
    (o : Option ℕ) (n : ℕ) → (in_range o ≡ some n) ↔ ((o ≡ some n) × (1 ≤ n) × (n ≤ 65535))
unfolding in_range
in_range_iff none n = ((λ h. absurd cc), λ (a, b, c). absurd cc)
in_range_iff (some m) n = elim (Bool-cases (leb 1 m && leb m 65535)) [
  | inl p ↦
      let (a, b) = (both_iff (leb 1 m) (leb m 65535)).0 p in
      let e = if_true (leb 1 m && leb m 65535) (some m) none p in
      (
        (λ h.
            let q = some_inj (sym e ∙ h) in
            (
              ap some q,
              subst (λ k. 1 ≤ k) q (leb→le 1 m a),
              subst (λ k. k ≤ 65535) q (leb→le m 65535 b),
            )),
        λ (h, x, y). e ∙ h,
      )
  | inr p ↦
      let e = if_false (leb 1 m && leb m 65535) (some m) none p in
      (
        (λ h. let q = sym e ∙ h in absurd cc),
        λ (h, x, y).
            let q = some_inj h in
            absurd (
              false≢true (
                sym p
                ∙ (both_iff (leb 1 m) (leb m 65535)).1
                    (le→leb 1 m (omega (arith, q, x)), le→leb m 65535 (omega (arith, q, y))))),
      )
]

pub port_num-IsPort : (s : Bytes) (n : ℕ) → (port_num s ≡ some n) ↔ IsPort s n
unfolding port_num
port_num-IsPort s n = (
  (λ h.
      let (p, x, y) = (in_range_iff (positive s) n).0 h in
      let (ds, o, a, b, c) = positive→Signed s n p in (ds, o, a, b, c, x, y)),
  λ (ds, o, a, b, c, x, y).
      let (p, q) = Signed→positive ds n (a, b, c) in
      (in_range_iff (positive s) n).1
        (elim o [ inl e ↦ ap positive e ∙ p | inr e ↦ ap positive e ∙ q ], x, y),
)
