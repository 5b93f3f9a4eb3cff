-- ===== src/Output/Alloc/Drop.antt =====
-- Step 2 of the allocator: which columns it drops, and when it stops.
pub mod Loop
use native.Mathlib.Nat.{le_refl, le_trans}
use workspace_cli.Output.Alloc.{Slot, drop_candidate}
use workspace_cli.Prelude.{
  All, All-map, Bool, Bool-cases, List, Option, [], arith, drop, false, inl, inr, leb, ltb, max,
  none, refl, some, suc, true, zero, ℕ, ◌&&◌, ◌+◌, ◌-◌, ◌<◌, ◌∷◌, ◌≡◌, ◌≤◌, ◌⊎◌,
}

-- Slot `i` is kept, its priority number is `prio`, and that is above 1.
abbrev pub KeptAt : ℕ → ℕ → List Slot → Type 0
KeptAt prio i [] = ⊥
KeptAt prio zero (s ∷ slots) = (s.kept ≡ true) × (1 < s.col.prio) × (s.col.prio ≡ prio)
KeptAt prio (suc i) (s ∷ slots) = KeptAt prio i slots

abbrev pub NoneAbove : ℕ → List Slot → Type 0
NoneAbove prio slots = All (λ s. s.kept ≡ true → s.col.prio ≤ prio) slots

-- The column to drop is kept and droppable, and no kept column has a higher priority number.
pub record IsNext (i : ℕ) (slots : List Slot) : Type 0 where
  pub prio : ℕ
  pub at : KeptAt prio i slots
  pub highest : NoneAbove prio slots

pub record Later (i prio : ℕ) (slots : List Slot) (j : ℕ) : Type 0 where
  pub offset : ℕ
  pub place : j ≡ i + offset
  pub next : IsNext offset slots
  pub above : prio ≤ next.prio

-- What the scan from column `i` on finds, when it has `drop` at priority `prio` so far.
abbrev pub Scanned : ℕ → Option ℕ → ℕ → List Slot → Option ℕ → Type 0
Scanned i drop prio slots none = (drop ≡ none) × NoneAbove (max 1 (prio - 1)) slots
Scanned i drop prio slots (some j) =
    ((drop ≡ some j) × NoneAbove (max 1 (prio - 1)) slots) ⊎ Later i prio slots j

abbrev better : ℕ → Slot → Bool
better prio s = s.kept && (ltb 1 s.col.prio && leb prio s.col.prio)

pub KeptAt-above : (prio i : ℕ) (slots : List Slot) → KeptAt prio i slots → 1 < prio
KeptAt-above prio i [] h = absurd h
KeptAt-above prio zero (s ∷ slots) h = omega (arith, h.1, h.2)
KeptAt-above prio (suc i) (s ∷ slots) h = KeptAt-above prio i slots h

pub NoneAbove-mono : (p q : ℕ) (slots : List Slot) → p ≤ q → NoneAbove p slots → NoneAbove q slots
NoneAbove-mono p q slots h = All-map _ _ slots (λ s k e. le_trans (k e) h)

Scanned-take :
    (i : ℕ) (drop : Option ℕ) (prio : ℕ) (s : Slot) (slots : List Slot) (o : Option ℕ)
    → better prio s ≡ true
    → Scanned (suc i) (some i) s.col.prio slots o
    → Scanned i drop prio (s ∷ slots) o
Scanned-take i drop prio s slots none b (e, na) = absurd (ground arith)
Scanned-take i drop prio s slots (some j) b (inl (e, na)) = inr (record {
  offset = 0;
  place = ground arith;
  next = record {
    prio = s.col.prio;
    at = (ground arith, ground arith, refl);
    highest = (λ _. le_refl s.col.prio, NoneAbove-mono _ _ slots (ground arith) na);
  };
  above = ground arith;
})
Scanned-take i drop prio s slots (some j) b (inr l) = inr (record {
  offset = suc l.offset;
  place = omega (arith, l.place);
  next = record { prio = l.next.prio; at = l.next.at; highest = (λ _. l.above, l.next.highest) };
  above = ground (arith, l.above);
})

not_better :
    (prio : ℕ) (s : Slot) → better prio s ≡ false → s.kept ≡ true → s.col.prio ≤ max 1 (prio - 1)
not_better prio s b k = ground arith

Scanned-skip :
    (i : ℕ) (drop : Option ℕ) (prio : ℕ) (s : Slot) (slots : List Slot) (o : Option ℕ)
    → better prio s ≡ false
    → Scanned (suc i) drop prio slots o
    → Scanned i drop prio (s ∷ slots) o
Scanned-skip i drop prio s slots none b (e, na) = (e, (not_better prio s b, na))
Scanned-skip i drop prio s slots (some j) b (inl (e, na)) = inl (e, (not_better prio s b, na))
Scanned-skip i drop prio s slots (some j) b (inr l) = inr (record {
  offset = suc l.offset;
  place = omega (arith, l.place);
  next = record {
    prio = l.next.prio;
    at = l.next.at;
    highest = (
      λ k. omega (arith, not_better prio s b k, l.above, KeptAt-above _ _ slots l.next.at),
      l.next.highest,
    );
  };
  above = l.above;
})

pub drop_candidate-Scanned :
    (i : ℕ) (drop : Option ℕ) (prio : ℕ) (slots : List Slot)
    → Scanned i drop prio slots (drop_candidate i drop prio slots)
unfolding drop_candidate
drop_candidate-Scanned i none prio [] = (refl, tt)
drop_candidate-Scanned i (some j) prio [] = inl (refl, tt)
drop_candidate-Scanned i drop prio (s ∷ slots) = elim (Bool-cases (better prio s)) [
  | inl b ↦ rw b (
      Scanned-take i drop prio s slots _ b
        (drop_candidate-Scanned (suc i) (some i) s.col.prio slots))
  | inr b ↦
      rw b (Scanned-skip i drop prio s slots _ b (drop_candidate-Scanned (suc i) drop prio slots))
]
