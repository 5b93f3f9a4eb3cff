-- ===== src/Output/Alloc/Drop/Loop.antt =====
-- The loop of step 2: its order, its end, and what it leaves alone.
use native.Mathlib.Nat.{le_refl, le_trans}
use workspace_cli.Output.Alloc.{
  Slot, count_kept, drop_at, drop_candidate, drop_loop, drop_next, drop_step, floor_of, sum_kept,
  total_of, cols_of,
}
use workspace_cli.Output.Alloc.Drop.{IsNext, KeptAt, NoneAbove, Scanned, drop_candidate-Scanned}
use workspace_cli.Output.Alloc.Relax.Total.{count_kept-le-length}
use workspace_cli.Prelude.{
  All, List, Option, [], arith, false, if_intro, inl, inr, leb, leb→le, length, ltb, ltb→le, none,
  refl, some, suc, sum_by, true, zero, ℕ, ◌+◌, ◌<◌, ◌∷◌, ◌≡◌, ◌≤◌, ◌⊎◌, ap, ◌∙◌,
}

-- Every kept column has a priority number of at most `p`, every dropped one of at least `p`, and
-- above 1.
abbrev pub Ordered : ℕ → List Slot → Type 0
Ordered p slots =
    All
      (λ s.
        (s.kept ≡ true → s.col.prio ≤ p) × (s.kept ≡ false → (p ≤ s.col.prio) × (1 < s.col.prio)))
      slots

-- The slot to drop, by what the scan returns.
IsNext-of : (slots : List Slot) (j : ℕ) → drop_candidate 0 none 1 slots ≡ some j → IsNext j slots
IsNext-of slots j e = go (rw e at (drop_candidate-Scanned 0 none 1 slots))
  where
    go : Scanned 0 none 1 slots (some j) → IsNext j slots
    go (inl (absent, na)) = absurd (ground arith)
    go (inr l) = rw (let same : j ≡ l.offset = omega (arith, l.place) in same) l.next

none_left : (slots : List Slot) → drop_candidate 0 none 1 slots ≡ none → NoneAbove 1 slots
none_left slots e = (rw e at (drop_candidate-Scanned 0 none 1 slots)).1

KeptAt-le : (p q i : ℕ) (slots : List Slot) → KeptAt p i slots → Ordered q slots → p ≤ q
KeptAt-le p q i [] h o = absurd h
KeptAt-le p q zero (s ∷ slots) h o = omega (arith, h.2, o.0.0 h.0)
KeptAt-le p q (suc i) (s ∷ slots) h o = KeptAt-le p q i slots h o.1

drop_at-Ordered :
    (p q i : ℕ) (slots : List Slot)
    → KeptAt p i slots
    → NoneAbove p slots
    → Ordered q slots
    → p ≤ q
    → Ordered p (drop_at i slots)
unfolding drop_at
drop_at-Ordered p q i [] k na o le = tt
drop_at-Ordered p q zero (s ∷ slots) k na o le =
    (((λ e. absurd (ground arith)), λ e. (omega (arith, k.2), k.1)), lower slots na.1 o.1)
  where
    lower : (ts : List Slot) → NoneAbove p ts → Ordered q ts → Ordered p ts
    lower [] na o = tt
    lower (t ∷ ts) na o = ((na.0, λ e. (le_trans le (o.0.1 e).0, (o.0.1 e).1)), lower ts na.1 o.1)
drop_at-Ordered p q (suc i) (s ∷ slots) k na o le =
    ((na.0, λ e. (le_trans le (o.0.1 e).0, (o.0.1 e).1)), drop_at-Ordered p q i slots k na.1 o.1 le)

count_kept-drop_at :
    (p i : ℕ) (slots : List Slot)
    → KeptAt p i slots
    → count_kept (drop_at i slots) + 1 ≡ count_kept slots
unfolding drop_at
count_kept-drop_at p i [] h = absurd h
count_kept-drop_at p zero (s ∷ slots) h = ground arith
count_kept-drop_at p (suc i) (s ∷ slots) h = ground (arith, count_kept-drop_at p i slots h)

-- What one round does, for the rest of the rounds.
record RoundResult (budget : ℕ) (slots : List Slot) : Type 0 where
  level : ℕ
  ordered : Ordered level slots
  ended : (total_of floor_of slots ≤ budget) ⊎ NoneAbove 1 slots

none_kept-NoneAbove : (slots : List Slot) → count_kept slots ≡ 0 → NoneAbove 1 slots
none_kept-NoneAbove [] h = tt
none_kept-NoneAbove (s ∷ slots) h =
    ((λ k. absurd (ground arith)), none_kept-NoneAbove slots (ground arith))

drop_next-Result :
    (budget q fuel : ℕ) (slots : List Slot) (rest : List Slot → List Slot) (o : Option ℕ)
    → drop_candidate 0 none 1 slots ≡ o
    → Ordered q slots
    → count_kept slots ≤ suc fuel
    → ((p : ℕ) (ts : List Slot)
        → Ordered p ts
        → count_kept ts ≤ fuel
        → RoundResult budget (rest ts))
    → RoundResult budget (drop_next o slots rest)
unfolding drop_next
drop_next-Result budget q fuel slots rest none e o c k = record {
  level = q;
  ordered = o;
  ended = inr (none_left slots e);
}
drop_next-Result budget q fuel slots rest (some j) e o c k =
    let n = IsNext-of slots j e in
    k n.prio (drop_at j slots)
      (drop_at-Ordered n.prio q j slots n.at n.highest o (KeptAt-le n.prio q j slots n.at o))
      (omega (arith, count_kept-drop_at n.prio j slots n.at, c))

drop_loop-Result :
    (fuel budget q : ℕ) (slots : List Slot)
    → Ordered q slots
    → count_kept slots ≤ fuel
    → RoundResult budget (drop_loop fuel budget slots)
unfolding drop_loop
drop_loop-Result zero budget q slots o c = record {
  level = q;
  ordered = o;
  ended = inr (none_kept-NoneAbove slots (omega (arith, c)));
}
drop_loop-Result (suc fuel) budget q slots o c =
    if_intro (RoundResult budget) (ltb budget (total_of floor_of slots)) _ _
      (λ _.
        drop_next-Result budget q fuel slots (drop_loop fuel budget) _ refl o c
          (λ p ts o' c'. drop_loop-Result fuel budget p ts o' c'))
      (λ e. record { level = q; ordered = o; ended = inl (ltb→le _ _ e) })

floor_of-le : (slots : List Slot) → sum_kept floor_of slots ≤ sum_kept (λ s. s.natural) slots
floor_of-le [] = omega arith
floor_of-le (s ∷ slots) = ground (arith, floor_of-le slots)

-- All columns kept, at their natural widths.
abbrev pub IsFresh : List Slot → Type 0
IsFresh slots = All (λ s. (s.kept ≡ true) × (s.allotted ≡ s.natural) × (s.relaxed ≡ false)) slots

fresh-Ordered :
    (p : ℕ) (slots : List Slot)
    → IsFresh slots
    → sum_by (λ s. s.col.prio) slots ≤ p
    → Ordered p slots
fresh-Ordered p [] f h = tt
fresh-Ordered p (s ∷ slots) f h = (
  ((λ k. omega (arith, h)), λ k. absurd (ground (arith, f.0.0))),
  fresh-Ordered p slots f.1 (omega (arith, h)),
)

drop_step-Result :
    (budget : ℕ) (slots : List Slot) → IsFresh slots → RoundResult budget (drop_step budget slots)
unfolding drop_step
drop_step-Result budget slots f =
    let p = sum_by (λ (s : Slot). s.col.prio) slots in
    let o = fresh-Ordered p slots f (le_refl p) in
    if_intro (RoundResult budget) (leb (total_of (λ s. s.natural) slots) budget) _ _
      (λ e. record {
        level = p;
        ordered = o;
        ended = inl (omega (arith, leb→le _ _ e, floor_of-le slots));
      })
      (λ _. drop_loop-Result (length slots) budget p slots o (count_kept-le-length slots))

-- Step 2 drops in the order of the priority numbers: some number parts the columns that are kept
-- from the higher or equal ones that are dropped, and no column of priority 0 or 1 is dropped.
pub drop_step-Ordered :
    (budget : ℕ) (slots : List Slot) → IsFresh slots → (p : ℕ) × Ordered p (drop_step budget slots)
drop_step-Ordered budget slots f = let r = drop_step-Result budget slots f in (r.level, r.ordered)

-- Step 2 stops when the columns fit at their floors, or when no kept column may be dropped.
pub drop_step_ends :
    (budget : ℕ) (slots : List Slot)
    → IsFresh slots
    → (total_of floor_of (drop_step budget slots) ≤ budget) ⊎ NoneAbove 1 (drop_step budget slots)
drop_step_ends budget slots f = (drop_step-Result budget slots f).ended

-- Step 2 changes nothing of a column but whether it is kept.
module _ (P : Slot → Type 0) (stable : (s : Slot) → P s → P (record s { kept = false })) where
  All-drop_at : (i : ℕ) (slots : List Slot) → All P slots → All P (drop_at i slots)
  unfolding drop_at
  All-drop_at i [] h = tt
  All-drop_at zero (s ∷ slots) h = (stable s h.0, h.1)
  All-drop_at (suc i) (s ∷ slots) h = (h.0, All-drop_at i slots h.1)

  All-drop_next :
      (slots : List Slot) (rest : List Slot → List Slot) (o : Option ℕ)
      → All P slots
      → ((ts : List Slot) → All P ts → All P (rest ts))
      → All P (drop_next o slots rest)
  unfolding drop_next
  All-drop_next slots rest none h k = h
  All-drop_next slots rest (some i) h k = k (drop_at i slots) (All-drop_at i slots h)

  All-drop_loop :
      (fuel budget : ℕ) (slots : List Slot) → All P slots → All P (drop_loop fuel budget slots)
  unfolding drop_loop
  All-drop_loop zero budget slots h = h
  All-drop_loop (suc fuel) budget slots h =
      if_intro (All P) (ltb budget (total_of floor_of slots)) _ _
        (λ _. All-drop_next slots (drop_loop fuel budget) _ h (λ ts. All-drop_loop fuel budget ts))
        (λ _. h)

  pub All-drop_step :
      (budget : ℕ) (slots : List Slot) → All P slots → All P (drop_step budget slots)
  unfolding drop_step
  All-drop_step budget slots h =
      if_intro (All P) (leb (total_of (λ s. s.natural) slots) budget) _ _ (λ _. h)
        (λ _. All-drop_loop (length slots) budget slots h)

-- Nor does it move a column.
cols-drop_at : (i : ℕ) (slots : List Slot) → cols_of (drop_at i slots) ≡ cols_of slots
unfolding drop_at
cols-drop_at i [] = refl
cols-drop_at zero (s ∷ slots) = refl
cols-drop_at (suc i) (s ∷ slots) = ap (λ cs. s.col ∷ cs) (cols-drop_at i slots)

cols-drop_next :
    (slots : List Slot) (rest : List Slot → List Slot) (o : Option ℕ)
    → ((ts : List Slot) → cols_of (rest ts) ≡ cols_of ts)
    → cols_of (drop_next o slots rest) ≡ cols_of slots
unfolding drop_next
cols-drop_next slots rest none k = refl
cols-drop_next slots rest (some i) k = k (drop_at i slots) ∙ cols-drop_at i slots

cols-drop_loop :
    (fuel budget : ℕ) (slots : List Slot) → cols_of (drop_loop fuel budget slots) ≡ cols_of slots
unfolding drop_loop
cols-drop_loop zero budget slots = refl
cols-drop_loop (suc fuel) budget slots =
    if_intro (λ ts. cols_of ts ≡ cols_of slots) (ltb budget (total_of floor_of slots)) _ _
      (λ _. cols-drop_next slots (drop_loop fuel budget) _ (λ ts. cols-drop_loop fuel budget ts))
      (λ _. refl)

pub cols-drop_step :
    (budget : ℕ) (slots : List Slot) → cols_of (drop_step budget slots) ≡ cols_of slots
unfolding drop_step
cols-drop_step budget slots =
    if_intro (λ ts. cols_of ts ≡ cols_of slots) (leb (total_of (λ s. s.natural) slots) budget) _ _
      (λ _. refl) (λ _. cols-drop_loop (length slots) budget slots)
