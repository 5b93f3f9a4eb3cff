-- ===== src/Hysteria/Hop/Spec.antt =====
-- The specs that `hopBasePort` accepts.
use mathlib.Core.Path.{ap₂}
use workspace_cli.Hysteria.Hop.{
  check_item, check_items, contains, cut, hop_base_port, le_port, port_num, split,
}
use workspace_cli.Hysteria.Hop.Clean.{Separator, port_num-clean}
use workspace_cli.Hysteria.Hop.Pieces.{
  contains-append, contains-glue, cut-glue, cut-whole, glue, glue-cut, glue_all, glue_all-split,
  split-glue_all,
}
use workspace_cli.Hysteria.Hop.Port.{IsPort, port_num-IsPort}
use workspace_cli.Prelude.{
  All, Bool, Bool-cases, Bytes, List, Option, [], ap, arith, both_iff, false, false≢true, if_false,
  if_true, if◌then◌else◌, inl, inr, leb→le, le→leb, map, none, not, refl, some, subst, sym, true, ℕ,
  ◌++◌, ◌||◌, ◌↔◌, ◌∙◌, ◌∷◌, ◌≡◌, ◌≤◌, or_true, some_inj,
}

-- A port, or a range of ports that is not turned around.
abbrev pub ValidItem : Bytes × Option Bytes → Type 0
ValidItem (lo, none) = (n : ℕ) × IsPort lo n
ValidItem (lo, some hi) = (m : ℕ) × (n : ℕ) × IsPort lo m × IsPort hi n × (m ≤ n)

-- More than one item, or a range.
abbrev pub Hops : Bytes × Option Bytes → List (Bytes × Option Bytes) → Type 0
Hops (lo, none) [] = ⊥
Hops (lo, some hi) [] = Unit
Hops first (item ∷ items) = Unit

-- The items are joined by commas, a range's ends by a dash; the base is the first item's port, or
-- its low end.
abbrev pub HopSpec : Bytes → Bytes → Type 0
HopSpec spec base =
    (first : Bytes × Option Bytes) × (others : List (Bytes × Option Bytes)) × (spec
      ≡ glue_all 44 (glue 45 first) (map (glue 45) others))
    × ValidItem first
    × All ValidItem others
    × Hops first others
    × (base ≡ first.0)

port-some :
    (o : Option ℕ) → (elim o [ some n ↦ true | none ↦ false ] ≡ true) ↔ ((n : ℕ) × (o ≡ some n))
port-some none = ((λ h. absurd cc), λ (n, q). absurd cc)
port-some (some n) = ((λ h. (n, refl)), λ x. refl)

le_port-some :
    (o p : Option ℕ)
    → (le_port o p ≡ true) ↔ ((m : ℕ) × (n : ℕ) × (o ≡ some m) × (p ≡ some n) × (m ≤ n))
unfolding le_port
le_port-some none p = ((λ h. absurd cc), λ (m, n, q, r, l). absurd cc)
le_port-some (some m) none = ((λ h. absurd cc), λ (m', n, q, r, l). absurd cc)
le_port-some (some m) (some n) = (
  (λ h. (m, n, refl, refl, leb→le m n h)),
  λ (m', n', q, r, l). let x = some_inj q in let y = some_inj r in le→leb m n (omega arith),
)

pub check_item-ValidItem : (i : Bytes × Option Bytes) → (check_item i ≡ true) ↔ ValidItem i
unfolding check_item
check_item-ValidItem (lo, none) =
    let s = port-some (port_num lo) in
    (
      (λ h. let (n, q) = s.0 h in (n, (port_num-IsPort lo n).0 q)),
      λ (n, p). s.1 (n, (port_num-IsPort lo n).1 p),
    )
check_item-ValidItem (lo, some hi) =
    let s = le_port-some (port_num lo) (port_num hi) in
    (
      (λ h.
          let (m, n, q, r, l) = s.0 h in
          (m, n, (port_num-IsPort lo m).0 q, (port_num-IsPort hi n).0 r, l)),
      λ (m, n, p, q, l). s.1 (m, n, (port_num-IsPort lo m).1 p, (port_num-IsPort hi n).1 q, l),
    )

-- The text of a port has no separator.
IsPort-clean : (b : ℕ) (s : Bytes) (n : ℕ) → Separator b → IsPort s n → contains b s ≡ false
IsPort-clean b s n h p = port_num-clean b s n h ((port_num-IsPort s n).1 p)

check_items-All :
    (items : List Bytes) → (check_items items ≡ true) ↔ All (λ i. ValidItem (cut 45 i)) items
unfolding check_items
check_items-All [] = ((λ h. tt), λ x. refl)
check_items-All (i ∷ items) =
    let both = both_iff (check_item (cut 45 i)) (check_items items) in
    (
      (λ h.
          let (a, b) = both.0 h in
          ((check_item-ValidItem (cut 45 i)).0 a, (check_items-All items).0 b)),
      λ (a, b). both.1 ((check_item-ValidItem (cut 45 i)).1 a, (check_items-All items).1 b),
    )

-- The text of a valid item has no comma, and its first port no dash.
glue-clean : (i : Bytes × Option Bytes) → ValidItem i → contains 44 (glue 45 i) ≡ false
unfolding contains
glue-clean (lo, none) (n, q) = IsPort-clean 44 lo n (inl refl) q
glue-clean (lo, some hi) (m, n, p, q, l) =
    contains-append 44 lo (45 ∷ hi)
    ∙ ap₂ (λ x y. x || y) (IsPort-clean 44 lo m (inl refl) p) (IsPort-clean 44 hi n (inl refl) q)

cut-glue-ValidItem : (i : Bytes × Option Bytes) → ValidItem i → cut 45 (glue 45 i) ≡ i
cut-glue-ValidItem (lo, none) (n, q) = cut-whole 45 lo (IsPort-clean 45 lo n (inr refl) q)
cut-glue-ValidItem (lo, some hi) (m, n, p, q, l) =
    cut-glue 45 lo hi (IsPort-clean 45 lo m (inr refl) p)

map-clean :
    (items : List (Bytes × Option Bytes))
    → All ValidItem items
    → All (λ y. contains 44 y ≡ false) (map (glue 45) items)
map-clean [] a = tt
map-clean (i ∷ items) (v, a) = (glue-clean i v, map-clean items a)

map-ValidItem :
    (items : List (Bytes × Option Bytes))
    → All ValidItem items
    → All (λ i. ValidItem (cut 45 i)) (map (glue 45) items)
map-ValidItem [] a = tt
map-ValidItem (i ∷ items) (v, a) =
    (subst ValidItem (sym (cut-glue-ValidItem i v)) v, map-ValidItem items a)

Hops-contains :
    (first : Bytes × Option Bytes) (others : List (Bytes × Option Bytes))
    → Hops first others
    → let spec = glue_all 44 (glue 45 first) (map (glue 45) others) in
      (contains 44 spec || contains 45 spec) ≡ true
Hops-contains (lo, none) [] h = absurd h
Hops-contains (lo, some hi) [] h =
    ap (λ t. contains 44 (lo ++ 45 ∷ hi) || t) (contains-glue 45 lo hi) ∙ or_true _
Hops-contains first (i ∷ items) h =
    ap (λ t. t || contains 45 (glue_all 44 (glue 45 first) (map (glue 45) (i ∷ items))))
      (contains-glue 44 _ _)

-- One item that is the whole spec is a range.
one-Hops :
    (i : Bytes × Option Bytes) (s : Bytes)
    → glue 45 i ≡ s
    → ValidItem i
    → (contains 44 s || contains 45 s) ≡ true
    → Hops i []
one-Hops (lo, none) s q (n, p) h =
    let clean : (contains 44 lo || contains 45 lo) ≡ false =
      ap₂ (λ x y. x || y) (IsPort-clean 44 lo n (inl refl) p) (IsPort-clean 45 lo n (inr refl) p) in
    false≢true (sym clean ∙ subst (λ t. (contains 44 t || contains 45 t) ≡ true) (sym q) h)
one-Hops (lo, some hi) s q v h = tt

several-Hops : (i j : Bytes × Option Bytes) (js : List (Bytes × Option Bytes)) → Hops i (j ∷ js)
several-Hops (lo, none) j js = tt
several-Hops (lo, some hi) j js = tt

split-Hops :
    (first : Bytes) (others : List Bytes) (s : Bytes)
    → glue_all 44 first others ≡ s
    → ValidItem (cut 45 first)
    → (contains 44 s || contains 45 s) ≡ true
    → Hops (cut 45 first) (map (cut 45) others)
split-Hops first [] s q v h = one-Hops (cut 45 first) s (glue-cut 45 first ∙ q) v h
split-Hops first (o ∷ os) s q v h = several-Hops (cut 45 first) (cut 45 o) (map (cut 45) os)

map-glue-cut : (xs : List Bytes) → map (glue 45) (map (cut 45) xs) ≡ xs
map-glue-cut [] = refl
map-glue-cut (x ∷ xs) = ap₂ (λ y ys. y ∷ ys) (glue-cut 45 x) (map-glue-cut xs)

map-cut : (xs : List Bytes) → All (λ i. ValidItem (cut 45 i)) xs → All ValidItem (map (cut 45) xs)
map-cut [] a = tt
map-cut (x ∷ xs) (v, a) = (v, map-cut xs a)

abbrev judged : Bool → Bytes × List Bytes → Option Bytes
judged t p = if not t then none else if check_items (p.0 ∷ p.1) then some (cut 45 p.0).0 else none

accepted :
    (s base : Bytes) (t : Bool) (p : Bytes × List Bytes)
    → judged t p ≡ some base
    → (t ≡ true) × (check_items (p.0 ∷ p.1) ≡ true) × (base ≡ (cut 45 p.0).0)
accepted s base false p h = absurd cc
accepted s base true p h = elim (Bool-cases (check_items (p.0 ∷ p.1))) [
  | inl c ↦
      let e : some (cut 45 p.0).0 ≡ some base = sym (if_true (check_items (p.0 ∷ p.1)) _ _ c) ∙ h in
      (refl, c, cc)
  | inr c ↦
      let e : none ≡ some base = sym (if_false (check_items (p.0 ∷ p.1)) _ _ c) ∙ h in absurd cc
]

hop_base_port→HopSpec : (spec base : Bytes) → hop_base_port spec ≡ some base → HopSpec spec base
unfolding hop_base_port
hop_base_port→HopSpec spec base h =
    let (first, others) = split 44 spec in
    let (t, c, b) = accepted spec base (contains 44 spec || contains 45 spec) (split 44 spec) h in
    let (v, a) = (check_items-All (first ∷ others)).0 c in
    let whole = glue_all-split 44 spec in
    (
      cut 45 first,
      map (cut 45) others,
      sym (ap₂ (glue_all 44) (glue-cut 45 first) (map-glue-cut others) ∙ whole),
      v,
      map-cut others a,
      split-Hops first others spec whole v t,
      b,
    )

HopSpec→hop_base_port : (spec base : Bytes) → HopSpec spec base → hop_base_port spec ≡ some base
unfolding hop_base_port
HopSpec→hop_base_port spec base (first, others, q, v, a, h, b) =
    let text = glue_all 44 (glue 45 first) (map (glue 45) others) in
    let pieces =
      split-glue_all 44 (glue 45 first) (map (glue 45) others) (glue-clean first v)
        (map-clean others a) in
    subst (λ s. hop_base_port s ≡ some base) (sym q)
      (ap₂ judged (Hops-contains first others h) pieces
        ∙ if_true (check_items (map (glue 45) (first ∷ others))) _ _ (
            (check_items-All (map (glue 45) (first ∷ others))).1
              (map-ValidItem (first ∷ others) (v, a)))
        ∙ ap (λ (i : Bytes × Option Bytes). some i.0) (cut-glue-ValidItem first v)
        ∙ ap some (sym b))

-- A hop spec is accepted with the given base exactly when it is a list of ports and of ranges that
-- are not turned around, joined by commas, with more than one item or a range, and the base is its
-- first port or the low end of its first range. A port is one or more decimal digits, with or without
-- a plus sign before them, for a number from 1 to 65535.
pub hop_base_port-HopSpec :
    (spec base : Bytes) → (hop_base_port spec ≡ some base) ↔ HopSpec spec base
hop_base_port-HopSpec spec base = (hop_base_port→HopSpec spec base, HopSpec→hop_base_port spec base)
