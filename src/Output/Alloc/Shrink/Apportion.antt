-- ===== src/Output/Alloc/Shrink/Apportion.antt =====
-- Largest-remainder apportionment, in internal/output/alloc.go.
use native.Mathlib.Nat.{div-add-mod', mod-lt, le_of_mul-le-mul_right}
use workspace_cli.Output.Alloc.Shrink.{
  Part, Share, parts_of, sort_parts, total_slack, apportion, bump,
}
use workspace_cli.Output.Alloc.Shrink.Sorting.{
  All-sort_parts, IsFalling, first_remainder, remainders, sort_parts-IsFalling, sum_by-sort_parts,
}
use workspace_cli.Prelude.{
  All, All-map, List, [], arith, if◌then◌else◌, refl, sum_by, ℕ, ◌*◌, ◌+◌, ◌<◌, ◌==◌, ◌∷◌, ◌≡◌, ◌≤◌,
  suc, sym, zero, ◌-◌, ◌∙◌, ap,
}

-- `p` is the share of its column, rounded down, with what the rounding left.
record IsFair (total take : ℕ) (slack : ℕ → ℕ) (p : Part) : Type 0 where
  share : take * slack p.index ≡ p.base * total + p.remainder
  small : p.remainder < total

abbrev pub bases : List Part → ℕ
bases parts = sum_by (λ p. p.base) parts

-- The part of the indices that stand in a list of parts, as weighed by `f`.
abbrev pub at_index : (Part → ℕ) → ℕ → Part → ℕ
at_index f i p = if p.index == i then f p else 0

abbrev pub WithinSlack : (ℕ → ℕ) → Part → Type 0
WithinSlack slack p = p.base ≤ slack p.index

base-le :
    (base r total take s : ℕ) → take * s ≡ base * total + r → take ≤ total → 0 < total → base ≤ s
base-le base r total take s e h p = grind arith

base_lt :
    (base r total take s : ℕ)
    → take * s ≡ base * total + r
    → take ≤ total
    → 0 < r
    → 0 < total
    → base + 1 ≤ s
base_lt base r total take s e h q p = grind arith

parts_of-IsFair :
    (take total : ℕ) (slack : ℕ → ℕ) (shares : List Share)
    → 0 < total
    → All (λ s. slack s.index ≡ s.slack) shares
    → All (IsFair total take slack) (parts_of take total shares)
unfolding parts_of
parts_of-IsFair take total slack [] p h = tt
parts_of-IsFair take total slack (s ∷ shares) p h = (
  record {
    share = rw (h.0) (sym (div-add-mod' (take * s.slack) total));
    small = mod-lt (take * s.slack) p;
  },
  parts_of-IsFair take total slack shares p h.1,
)

parts_of-sum :
    (take total : ℕ) (shares : List Share)
    → bases (parts_of take total shares) * total + remainders (parts_of take total shares)
      ≡ take * total_slack shares
unfolding parts_of
parts_of-sum take total [] = omega arith
parts_of-sum take total (s ∷ shares) =
    omega (arith, div-add-mod' (take * s.slack) total, parts_of-sum take total shares)

module _ (total take : ℕ) (slack : ℕ → ℕ) (positive : 0 < total) (covered : take ≤ total) where
  bump-bases :
      (k : ℕ) (parts : List Part)
      → IsFalling parts
      → All (IsFair total take slack) parts
      → k * total ≤ remainders parts
      → bases (bump k parts) ≡ bases parts + k
  unfolding bump
  bump-bases zero parts h f e = omega arith
  bump-bases (suc k) [] h f e = absurd (omega arith)
  bump-bases (suc k) (p ∷ parts) h f e =
      omega (arith, bump-bases k parts h.1 f.1 (omega (arith, f.0.small)))

  IsFair-WithinSlack : (p : Part) → IsFair total take slack p → WithinSlack slack p
  IsFair-WithinSlack p f =
      base-le p.base p.remainder total take (slack p.index) f.share covered positive

  bump-WithinSlack :
      (k : ℕ) (parts : List Part)
      → IsFalling parts
      → All (IsFair total take slack) parts
      → k * total ≤ remainders parts
      → All (WithinSlack slack) (bump k parts)
  unfolding bump
  bump-WithinSlack zero parts h f e = All-map _ _ parts IsFair-WithinSlack f
  bump-WithinSlack (suc k) [] h f e = tt
  bump-WithinSlack (suc k) (p ∷ parts) h f e =
      let r = first_remainder k total p parts h positive e in
      (
        base_lt p.base p.remainder total take (slack p.index) f.0.share covered r positive,
        bump-WithinSlack k parts h.1 f.1 (omega (arith, f.0.small)),
      )

-- What a bump and a sort leave alone: where the parts stand.
bump-at_index :
    (f : ℕ → ℕ) (k i : ℕ) (parts : List Part)
    → sum_by (at_index (λ p. f p.index) i) (bump k parts)
      ≡ sum_by (at_index (λ p. f p.index) i) parts
unfolding bump
bump-at_index f zero i parts = refl
bump-at_index f (suc k) i [] = refl
bump-at_index f (suc k) i (p ∷ parts) = omega (arith, bump-at_index f k i parts)

-- The parts stand where the shares do.
parts_of-at_index :
    (f : ℕ → ℕ) (take total i : ℕ) (shares : List Share)
    → sum_by (at_index (λ p. f p.index) i) (parts_of take total shares)
      ≡ sum_by (λ s. if s.index == i then f s.index else 0) shares
unfolding parts_of
parts_of-at_index f take total i [] = refl
parts_of-at_index f take total i (s ∷ shares) =
    omega (arith, parts_of-at_index f take total i shares)

module _ (take : ℕ) (slack : ℕ → ℕ) (shares : List Share)
    (known : All (λ s. slack s.index ≡ s.slack) shares) (positive : 0 < total_slack shares)
    (covered : take ≤ total_slack shares) where
  abbrev first_parts : List Part
  first_parts = parts_of take (total_slack shares) shares

  abbrev left_over : ℕ
  left_over = take - bases first_parts

  fair : All (IsFair (total_slack shares) take slack) (sort_parts first_parts)
  fair =
      All-sort_parts _ first_parts
        (parts_of-IsFair take (total_slack shares) slack shares positive known)

  -- the parts that are rounded down leave no more than the remainders make up
  left_over-le :
      (bases first_parts ≤ take)
      × (left_over * total_slack shares ≤ remainders (sort_parts first_parts))
  left_over-le =
      let total = total_slack shares in
      let e = parts_of-sum take total shares in
      let le : bases first_parts ≤ take =
        le_of_mul-le-mul_right {k = total} (omega (arith, e)) positive in
      (
        le,
        omega (
          arith,
          ap (λ (n : ℕ). n * total)
              (let n : bases first_parts + left_over ≡ take = omega (arith, le) in n),
          e,
          sum_by-sort_parts (λ p. p.remainder) first_parts,
        ),
      )

  -- The parts add up to the deficit exactly.
  pub apportion_sum : bases (apportion take shares) ≡ take
  unfolding apportion
  apportion_sum = omega (
    arith,
    bump-bases (total_slack shares) take slack positive covered left_over (sort_parts first_parts)
        (sort_parts-IsFalling first_parts) fair left_over-le.1,
    sum_by-sort_parts (λ p. p.base) first_parts,
    left_over-le.0,
  )

  -- No part exceeds the slack of its column.
  pub apportion-WithinSlack : All (WithinSlack slack) (apportion take shares)
  unfolding apportion
  apportion-WithinSlack =
      bump-WithinSlack (total_slack shares) take slack positive covered left_over
        (sort_parts first_parts) (sort_parts-IsFalling first_parts) fair left_over-le.1

  pub apportion-at_index :
      (f : ℕ → ℕ) (i : ℕ)
      → sum_by (at_index (λ p. f p.index) i) (apportion take shares)
        ≡ sum_by (λ s. if s.index == i then f s.index else 0) shares
  unfolding apportion
  apportion-at_index f i =
      bump-at_index f left_over i (sort_parts first_parts)
      ∙ sum_by-sort_parts (at_index (λ p. f p.index) i) first_parts
      ∙ parts_of-at_index f take (total_slack shares) i shares
