-- ===== src/Output/Alloc/Shrink/Exact.antt =====
-- Step 3 on the slots.
use mathlib.Core.Path.{ap₂, fun_ext}
use native.Mathlib.Nat.{le_trans}
use workspace_cli.Output.Alloc.{Slot}
use workspace_cli.Output.Alloc.Relax.Total.{widths}
use workspace_cli.Output.Alloc.Shrink.{
  Part, apply_parts, shares_from, slack_of, subtract_at, total_slack, apportion, shrink_to_fit,
}
use workspace_cli.Output.Alloc.Shrink.Apportion.{
  WithinSlack, at_index, apportion-WithinSlack, apportion-at_index, apportion_sum, bases,
}
use workspace_cli.Prelude.{
  All, List, [], ap, arith, if_intro, if◌then◌else◌, ltb, refl, suc, sum_by, sym, zero, ℕ, ◌+◌, ◌-◌,
  ◌<◌, ◌==◌, ◌∙◌, ◌∷◌, ◌≡◌, ◌≤◌, ==_iff, min, suc-==-suc,
}

abbrev pub slack_at : List Slot → ℕ → ℕ
slack_at [] i = 0
slack_at (s ∷ slots) zero = slack_of s
slack_at (s ∷ slots) (suc i) = slack_at slots i

-- Slot `i` gives `f i` columns.
abbrev pub narrow : ℕ → Slot → Slot
narrow n s = record s { allotted = s.allotted - n }

abbrev pub shrink_by : (ℕ → ℕ) → List Slot → List Slot
shrink_by f [] = []
shrink_by f (s ∷ slots) = narrow (f 0) s ∷ shrink_by (λ i. f (suc i)) slots

-- What the parts take from column `i`.
abbrev need : List Part → ℕ → ℕ
need parts i = sum_by (at_index (λ p. p.base) i) parts

shares_from-total :
    (i : ℕ) (slots : List Slot) → total_slack (shares_from i slots) ≡ sum_by slack_of slots
unfolding shares_from
shares_from-total i [] = refl
shares_from-total i (s ∷ slots) = ground (arith, shares_from-total (suc i) slots)

shares_from-known :
    (g : ℕ → ℕ) (k : ℕ) (slots : List Slot)
    → ((i : ℕ) → g (k + i) ≡ slack_at slots i)
    → All (λ s. g s.index ≡ s.slack) (shares_from k slots)
unfolding shares_from
shares_from-known g k [] h = tt
shares_from-known g k (s ∷ slots) h =
    let rest =
      shares_from-known g (suc k) slots
        (λ i. ap g (let e : suc k + i ≡ k + suc i = omega arith in e) ∙ h (suc i)) in
    if_intro (All (λ s. g s.index ≡ s.slack)) (ltb 0 (slack_of s)) _ _
      (λ _. (ap g (let e : k ≡ k + 0 = omega arith in e) ∙ h 0, rest)) (λ _. rest)

-- The shares stand at rising indices, so each index occurs once at most.
shares_from-before :
    (g : ℕ → ℕ) (k j : ℕ) (slots : List Slot)
    → j < k
    → sum_by (λ s. if s.index == j then g s.index else 0) (shares_from k slots) ≡ 0
unfolding shares_from
shares_from-before g k j [] h = refl
shares_from-before g k j (s ∷ slots) h = ground (arith, shares_from-before g (suc k) j slots)

shares_from-once :
    (g : ℕ → ℕ) (k j : ℕ) (slots : List Slot)
    → sum_by (λ s. if s.index == j then g s.index else 0) (shares_from k slots) ≤ g j
unfolding shares_from
shares_from-once g k j [] = omega arith
shares_from-once g k j (s ∷ slots) =
    ground (arith, shares_from-before g (suc k) j slots, shares_from-once g (suc k) j slots)

need-le :
    (slack : ℕ → ℕ) (i : ℕ) (parts : List Part)
    → All (WithinSlack slack) parts
    → need parts i ≤ sum_by (at_index (λ p. slack p.index) i) parts
need-le slack i [] h = omega arith
need-le slack i (p ∷ parts) h = ground (arith, need-le slack i parts h.1)

shrink_by_nothing : (slots : List Slot) → shrink_by (λ i. 0) slots ≡ slots
shrink_by_nothing [] = refl
shrink_by_nothing (s ∷ slots) = ground (arith, shrink_by_nothing slots)

narrow-narrow : (v w : ℕ) (s : Slot) → narrow w (narrow v s) ≡ narrow (v + w) s
narrow-narrow v w s = ap (λ n. record s { allotted = n }) (omega arith)

shrink_by-subtract_at :
    (f : ℕ → ℕ) (j w : ℕ) (slots : List Slot)
    → shrink_by f (subtract_at j w slots) ≡ shrink_by (λ i. (if j == i then w else 0) + f i) slots
unfolding subtract_at
shrink_by-subtract_at f j w [] = refl
shrink_by-subtract_at f zero w (s ∷ slots) =
    ap₂ (λ t ts. t ∷ ts) (narrow-narrow w (f 0) s)
      (ap (λ h. shrink_by h slots) (fun_ext (λ i. ground arith)))
shrink_by-subtract_at f (suc j) w (s ∷ slots) =
    ap₂ (λ n ts. narrow n s ∷ ts) (ground arith)
      (shrink_by-subtract_at (λ i. f (suc i)) j w slots
        ∙ ap (λ h. shrink_by h slots) (fun_ext (λ i. rw suc-==-suc refl)))

apply_parts-shrink_by :
    (parts : List Part) (slots : List Slot) → apply_parts parts slots ≡ shrink_by (need parts) slots
unfolding apply_parts
apply_parts-shrink_by [] slots = sym (shrink_by_nothing slots)
apply_parts-shrink_by (p ∷ parts) slots =
    apply_parts-shrink_by parts (subtract_at p.index p.base slots)
    ∙ shrink_by-subtract_at (need parts) p.index p.base slots

abbrev sum_over : (ℕ → ℕ) → List Slot → ℕ
sum_over f [] = 0
sum_over f (s ∷ slots) = f 0 + sum_over (λ i. f (suc i)) slots

widths-shrink_by :
    (f : ℕ → ℕ) (slots : List Slot)
    → ((i : ℕ) → f i ≤ slack_at slots i)
    → widths (shrink_by f slots) + sum_over f slots ≡ widths slots
widths-shrink_by f [] h = refl
widths-shrink_by f (s ∷ slots) h =
    ground (arith, h 0, widths-shrink_by (λ i. f (suc i)) slots (λ i. h (suc i)))

sum_over-add :
    (f g : ℕ → ℕ) (slots : List Slot)
    → sum_over (λ i. f i + g i) slots ≡ sum_over f slots + sum_over g slots
sum_over-add f g [] = refl
sum_over-add f g (s ∷ slots) = omega (arith, sum_over-add (λ i. f (suc i)) (λ i. g (suc i)) slots)

sum_over_nothing : (slots : List Slot) → sum_over (λ i. 0) slots ≡ 0
sum_over_nothing [] = refl
sum_over_nothing (s ∷ slots) = omega (arith, sum_over_nothing slots)

sum_over-ext :
    (f g : ℕ → ℕ) (slots : List Slot) → ((i : ℕ) → f i ≡ g i) → sum_over f slots ≡ sum_over g slots
sum_over-ext f g slots h = ap (λ k. sum_over k slots) (fun_ext h)

-- One index gives at most its own slack, and nothing is given beyond the last column.
sum_over_at :
    (j w : ℕ) (slots : List Slot)
    → w ≤ slack_at slots j
    → sum_over (λ i. if j == i then w else 0) slots ≡ w
sum_over_at j w [] h = omega arith
sum_over_at zero w (s ∷ slots) h =
    let none = sum_over-ext (λ i. if 0 == suc i then w else 0) (λ i. 0) slots (λ i. ground arith) in
    omega (arith, none, sum_over_nothing slots)
sum_over_at (suc j) w (s ∷ slots) h =
    let tail =
      sum_over-ext (λ i. if suc j == suc i then w else 0) (λ i. if j == i then w else 0) slots
        (λ i. rw suc-==-suc refl) in
    ground (arith, tail, sum_over_at j w slots h)

sum_over-need :
    (slots : List Slot) (parts : List Part)
    → All (WithinSlack (slack_at slots)) parts
    → sum_over (need parts) slots ≡ bases parts
sum_over-need slots [] h = sum_over_nothing slots
sum_over-need slots (p ∷ parts) h = omega (
  arith,
  sum_over-add (λ i. if p.index == i then p.base else 0) (need parts) slots,
  sum_over_at p.index p.base slots h.0,
  sum_over-need slots parts h.1,
)

-- What step 3 does: each column gives some of its slack, and together they give the deficit, or
-- all the slack there is.
pub record IsShrunk (deficit : ℕ) (slots result : List Slot) : Type 0 where
  pub given : ℕ → ℕ
  pub shrunk : result ≡ shrink_by given slots
  pub within : (i : ℕ) → given i ≤ slack_at slots i
  pub exact : widths result + min deficit (sum_by slack_of slots) ≡ widths slots

apply-IsShrunk :
    (deficit take : ℕ) (slots : List Slot)
    → 0 < total_slack (shares_from 0 slots)
    → take ≡ min deficit (sum_by slack_of slots)
    → IsShrunk deficit slots (apply_parts (apportion take (shares_from 0 slots)) slots)
apply-IsShrunk deficit take slots p e =
    let slack = slack_at slots in
    let shares = shares_from 0 slots in
    let known =
      shares_from-known slack 0 slots (λ i. ap slack (let e : 0 + i ≡ i = omega arith in e)) in
    let covered : take ≤ total_slack shares = omega (arith, e, shares_from-total 0 slots) in
    let parts = apportion take shares in
    let fits = apportion-WithinSlack take slack shares known p covered in
    let within : (i : ℕ) → need parts i ≤ slack i = λ i. le_trans (need-le slack i parts fits) (
      rw (apportion-at_index take slack shares known p covered slack i)
        (shares_from-once slack 0 i slots)) in
    record {
      given = need parts;
      shrunk = apply_parts-shrink_by parts slots;
      within = within;
      exact = rw (apply_parts-shrink_by parts slots) (
          omega (
            arith,
            widths-shrink_by (need parts) slots within,
            sum_over-need slots parts fits,
            apportion_sum take slack shares known p covered,
            e,
          ));
    }

pub shrink_to_fit-IsShrunk :
    (deficit : ℕ) (slots : List Slot) → IsShrunk deficit slots (shrink_to_fit deficit slots)
unfolding shrink_to_fit
shrink_to_fit-IsShrunk deficit slots =
    let total = total_slack (shares_from 0 slots) in
    if_intro (IsShrunk deficit slots) (total == 0) _ _
      (λ e. record {
        given = λ i. 0;
        shrunk = sym (shrink_by_nothing slots);
        within = λ i. omega arith;
        exact = omega (arith, (==_iff total 0).0 e, shares_from-total 0 slots);
      })
      (λ e.
        apply-IsShrunk deficit _ slots (ground arith) (ground (arith, shares_from-total 0 slots)))
