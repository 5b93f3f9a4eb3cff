-- ===== src/Output/Log/Chunks.antt =====
-- The log's parser by bytes, and the reads.
use mathlib.Core.List.{append-nil, append_assoc}
use workspace_cli.Output.Log.{
  Log, append_text, take, line_cap, trim_incomplete_rune, add, consume, consume_from, end_line,
  read_all, restart,
}
use workspace_cli.Prelude.{
  [], Bool-cases, Bytes, ap, arith, inl, inr, length, refl, suc, zero, ℕ, ◌++◌, ◌-◌, ◌∙◌, ◌∷◌, ◌≡◌,
  ◌≤◌, false, if_false, if_true, length-append, le→ltb, lt→ltb, sym, true, ◌<◌, ltb, ltb→le, ltb→lt,
  Bool, List, if◌then◌else◌, ◌==◌,
}

pub take-append_le : (n : ℕ) (xs ys : Bytes) → n ≤ length xs → take n (xs ++ ys) ≡ take n xs
unfolding take
take-append_le zero xs ys h = refl
take-append_le (suc n) [] ys h = absurd (omega arith)
take-append_le (suc n) (x ∷ xs) ys h = ap (λ t. x ∷ t) (take-append_le n xs ys (omega arith))

take-append_ge :
    (n : ℕ) (xs ys : Bytes) → length xs ≤ n → take n (xs ++ ys) ≡ xs ++ take (n - length xs) ys
unfolding take
take-append_ge n [] ys h = ap (λ k. take k ys) (omega arith)
take-append_ge zero (x ∷ xs) ys h = absurd (omega arith)
take-append_ge (suc n) (x ∷ xs) ys h =
    ap (λ t. x ∷ t) (take-append_ge n xs ys (omega arith) ∙ ap (λ k. xs ++ take k ys) (omega arith))

module _ (p : Bytes) (l : Log) where
  append_text-full : l.full ≡ true → append_text p l ≡ l
  unfolding append_text
  append_text-full f = if_true l.full _ _ f

  pub append_text-over :
      l.full ≡ false
      → line_cap - length l.partial < length p
      → append_text p l ≡ record l {
        partial = trim_incomplete_rune (l.partial ++ take (line_cap - length l.partial) p);
        full = true;
      }
  unfolding append_text
  append_text-over f h = if_false l.full _ _ f ∙ if_true _ _ _ (lt→ltb _ _ h)

  pub append_text-fits :
      l.full ≡ false
      → length p ≤ line_cap - length l.partial
      → append_text p l ≡ record l { partial = l.partial ++ p }
  unfolding append_text
  append_text-fits f h = if_false l.full _ _ f ∙ if_false _ _ _ (le→ltb _ _ h)

pub append_text-append :
    (p q : Bytes) (l : Log) → append_text (p ++ q) l ≡ append_text q (append_text p l)
append_text-append p q l = elim (Bool-cases l.full) [
  | inl f ↦
      append_text-full (p ++ q) l f
      ∙ sym (ap (append_text q) (append_text-full p l f) ∙ append_text-full q l f)
  | inr f ↦
      let room = line_cap - length l.partial in
      let n = length-append p q in
      let m = length-append l.partial p in
      let a = append_assoc l.partial p q in
      elim (Bool-cases (ltb room (length p))) [
        | inl t ↦
            let h = ltb→lt room (length p) t in
            append_text-over (p ++ q) l f (omega (arith, n, h))
            ∙ ap (λ t. record l { partial = trim_incomplete_rune (l.partial ++ t); full = true })
                (take-append_le room p q (omega (arith, h)))
            ∙ sym (ap (append_text q) (append_text-over p l f h) ∙ append_text-full q _ refl)
        | inr t ↦
            let h = ltb→le room (length p) t in
            let first = ap (append_text q) (append_text-fits p l f h) in
            elim (Bool-cases (ltb (room - length p) (length q))) [
              | inl s ↦
                  let k = ltb→lt (room - length p) (length q) s in
                  append_text-over (p ++ q) l f (omega (arith, n, h, k))
                  ∙ ap (λ u. record l { partial = trim_incomplete_rune u; full = true })
                      (ap (λ u. l.partial ++ u) (take-append_ge room p q h)
                        ∙ sym (append_assoc l.partial p (take (room - length p) q))
                        ∙ ap (λ j. l.partial ++ p ++ take j q) (omega (arith, m)))
                  ∙ sym (first ∙ append_text-over q _ f (omega (arith, m, h, k)))
              | inr s ↦
                  let k = ltb→le (room - length p) (length q) s in
                  append_text-fits (p ++ q) l f (omega (arith, n, h, k))
                  ∙ ap (λ t. record l { partial = t }) (sym a)
                  ∙ sym (first ∙ append_text-fits q _ f (omega (arith, m, h, k)))
            ]
      ]
]

append_text-cr : (p : Bytes) (l : Log) → (append_text p l).cr ≡ l.cr
unfolding append_text
append_text-cr p l = elim (Bool-cases l.full) [
  | inl f ↦ ap (λ x. x.cr) (append_text-full p l f)
  | inr f ↦ elim (Bool-cases (ltb (line_cap - length l.partial) (length p))) [
    | inl t ↦ ap (λ x. x.cr) (append_text-over p l f (ltb→lt _ _ t))
    | inr t ↦ ap (λ x. x.cr) (append_text-fits p l f (ltb→le _ _ t))
  ]
]

restart-cr : (l : Log) → (restart l).cr ≡ false
unfolding restart
restart-cr l = elim (Bool-cases l.cr) [
  | inl t ↦ ap (λ x. x.cr) (if_true l.cr _ l t)
  | inr t ↦ ap (λ x. x.cr) (if_false l.cr _ l t) ∙ t
]

add-append : (p q : Bytes) (l : Log) → add (p ++ q) l ≡ add q (add p l)
unfolding add restart
add-append [] q l = refl
add-append (b ∷ p) [] l = ap (λ t. add t l) (append-nil (b ∷ p))
add-append (b ∷ p) (c ∷ q) l =
    append_text-append (b ∷ p) (c ∷ q) (restart l)
    ∙ ap (append_text (c ∷ q))
        (sym (if_false _ _ _ (append_text-cr (b ∷ p) (restart l) ∙ restart-cr l)))

-- What the reads give, together.
abbrev pub joined : List Bytes → Bytes
joined [] = []
joined (p ∷ ps) = p ++ joined ps

module _ (blank : Bytes → Bool) (marker : Bytes) where
  consume_from-add :
      (seg p : Bytes) (l : Log)
      → consume_from blank marker seg p l ≡ consume_from blank marker [] p (add seg l)
  unfolding consume_from add
  consume_from-add seg [] l = refl
  consume_from-add seg (b ∷ p) l =
      ap
        (λ m.
          if b == 10
          then consume_from blank marker [] p
              (end_line blank marker (record (add seg l) { cr = false }))
          else if b == 13
          then consume_from blank marker [] p (record (add seg l) { cr = true })
          else m)
        (consume_from-add (seg ++ b ∷ []) p l
          ∙ ap (consume_from blank marker [] p) (add-append seg (b ∷ []) l)
          ∙ sym (consume_from-add (b ∷ []) p (add seg l)))

  -- What one byte does.
  unfoldable pub read_byte : ℕ → Log → Log
  unfolding end_line add
  read_byte b l =
      if b == 10
      then end_line blank marker (record l { cr = false })
      else if b == 13
      then record l { cr = true }
      else add (b ∷ []) l

  pub consume_from-read_byte :
      (b : ℕ) (p : Bytes) (l : Log)
      → consume_from blank marker [] (b ∷ p) l ≡ consume_from blank marker [] p (read_byte b l)
  unfolding consume_from read_byte add
  consume_from-read_byte b p l = elim (Bool-cases (b == 10)) [
    | inl t ↦
        if_true (b == 10) _ _ t
        ∙ sym (ap (consume_from blank marker [] p) (if_true (b == 10) _ _ t))
    | inr t ↦ if_false (b == 10) _ _ t ∙ elim (Bool-cases (b == 13)) [
      | inl s ↦
          if_true (b == 13) _ _ s
          ∙ sym (
              ap (consume_from blank marker [] p)
                (if_false (b == 10) _ _ t ∙ if_true (b == 13) _ _ s))
      | inr s ↦
          if_false (b == 13) _ _ s
          ∙ consume_from-add (b ∷ []) p l
          ∙ sym (
              ap (consume_from blank marker [] p)
                (if_false (b == 10) _ _ t ∙ if_false (b == 13) _ _ s))
    ]
  ]

  consume_from-append :
      (p q : Bytes) (l : Log)
      → consume_from blank marker [] (p ++ q) l
        ≡ consume_from blank marker [] q (consume_from blank marker [] p l)
  unfolding consume_from add
  consume_from-append [] q l = refl
  consume_from-append (b ∷ p) q l =
      consume_from-read_byte b (p ++ q) l
      ∙ consume_from-append p q (read_byte b l)
      ∙ sym (ap (consume_from blank marker [] q) (consume_from-read_byte b p l))

  pub read_all-concat :
      (ps : List Bytes) (l : Log)
      → read_all blank marker ps l ≡ consume_from blank marker [] (joined ps) l
  unfolding read_all consume consume_from add
  read_all-concat [] l = refl
  read_all-concat (p ∷ ps) l =
      read_all-concat ps (consume_from blank marker [] p l)
      ∙ sym (consume_from-append p (joined ps) l)
