-- ===== src/Output/Alloc/Shrink/Sorting.antt =====
-- Parts sorted by falling remainder, in internal/output/alloc.go.
use workspace_cli.Output.Alloc.Shrink.{Part, insert_part, sort_parts}
use workspace_cli.Prelude.{
  All, All-map, Bool-cases, List, [], arith, if_intro, inl, inr, ltb, ltb→le, ltb→lt, refl, suc,
  sum_by, ℕ, ◌*◌, ◌+◌, ◌<◌, ◌∷◌, ◌≡◌, ◌≤◌,
}

abbrev pub remainders : List Part → ℕ
remainders parts = sum_by (λ p. p.remainder) parts

sum_by-insert_part :
    (f : Part → ℕ) (p : Part) (parts : List Part)
    → sum_by f (insert_part p parts) ≡ f p + sum_by f parts
unfolding insert_part
sum_by-insert_part f p [] = refl
sum_by-insert_part f p (q ∷ parts) = ground (arith, sum_by-insert_part f p parts)

pub sum_by-sort_parts :
    (f : Part → ℕ) (parts : List Part) → sum_by f (sort_parts parts) ≡ sum_by f parts
unfolding sort_parts
sum_by-sort_parts f [] = refl
sum_by-sort_parts f (p ∷ parts) =
    omega (arith, sum_by-insert_part f p (sort_parts parts), sum_by-sort_parts f parts)

module _ (P : Part → Type 0) where
  All-insert_part : (p : Part) (parts : List Part) → P p → All P parts → All P (insert_part p parts)
  unfolding insert_part
  All-insert_part p [] h k = (h, tt)
  All-insert_part p (q ∷ parts) h k =
      if_intro (All P) (ltb p.remainder q.remainder) _ _ (λ _. (k.0, All-insert_part p parts h k.1))
        (λ _. (h, k))

  pub All-sort_parts : (parts : List Part) → All P parts → All P (sort_parts parts)
  unfolding sort_parts
  All-sort_parts [] h = tt
  All-sort_parts (p ∷ parts) h = All-insert_part p (sort_parts parts) h.0 (All-sort_parts parts h.1)

-- Sorted by falling remainder.
abbrev pub IsFalling : List Part → Type 0
IsFalling [] = Unit
IsFalling (p ∷ parts) = All (λ q. q.remainder ≤ p.remainder) parts × IsFalling parts

insert_part-IsFalling :
    (p : Part) (parts : List Part) → IsFalling parts → IsFalling (insert_part p parts)
unfolding insert_part
insert_part-IsFalling p [] h = (tt, tt)
insert_part-IsFalling p (q ∷ parts) h =
    if_intro IsFalling (ltb p.remainder q.remainder) _ _
      (λ e. (
        All-insert_part (λ r. r.remainder ≤ q.remainder) p parts (omega (arith, ltb→lt _ _ e)) h.0,
        insert_part-IsFalling p parts h.1,
      ))
      (λ e. (
        (
          omega (arith, ltb→le _ _ e),
          All-map _ _ parts (λ r k. omega (arith, ltb→le _ _ e, k)) h.0,
        ),
        h,
      ))

pub sort_parts-IsFalling : (parts : List Part) → IsFalling (sort_parts parts)
unfolding sort_parts
sort_parts-IsFalling [] = tt
sort_parts-IsFalling (p ∷ parts) =
    insert_part-IsFalling p (sort_parts parts) (sort_parts-IsFalling parts)

remainders_zero : (parts : List Part) → All (λ q. q.remainder ≤ 0) parts → remainders parts ≡ 0
remainders_zero [] h = refl
remainders_zero (p ∷ parts) h = omega (arith, remainders_zero parts h.1)

-- In a list sorted by falling remainder whose remainders make up a positive multiple of `total`,
-- the first remainder is positive.
pub first_remainder :
    (k total : ℕ) (p : Part) (parts : List Part)
    → IsFalling (p ∷ parts)
    → 0 < total
    → suc k * total ≤ remainders (p ∷ parts)
    → 0 < p.remainder
first_remainder k total p parts h t e = elim (Bool-cases (ltb 0 p.remainder)) [
  | inl positive ↦ ltb→lt _ _ positive
  | inr nought ↦
      let r : p.remainder ≤ 0 = ltb→le _ _ nought in
      let none = remainders_zero parts (All-map _ _ parts (λ q l. omega (arith, l, r)) h.0) in
      absurd (omega (arith, e, r, none, t))
]
