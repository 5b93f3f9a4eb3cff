-- ===== src/Output/Log/Last.antt =====
-- The last 20 of a list, which the log's tail is.
use mathlib.Core.List.{append-nil}
use workspace_cli.Output.Log.{last_of, tail_lines}
use workspace_cli.Prelude.{
  Bool, Bool-cases, Bytes, List, [], ap, arith, drop, false, if_false, if_true, if◌then◌else◌, inl,
  inr, length, length-append, length-drop-le, ltb, ltb→le, refl, suc, sym, true, zero, ℕ, ◌++◌, ◌+◌,
  ◌-◌, ◌<◌, ◌∙◌, ◌∷◌, ◌≡◌, ◌≤◌,
}

abbrev pub last20 : List Bytes → List Bytes
last20 ls = drop (length ls - 20) ls

pub drop-append_le :
    (n : ℕ) (xs ys : List Bytes) → n ≤ length xs → drop n xs ++ ys ≡ drop n (xs ++ ys)
drop-append_le zero xs ys h = refl
drop-append_le (suc n) [] ys h = absurd (omega arith)
drop-append_le (suc n) (x ∷ xs) ys h = drop-append_le n xs ys (omega arith)

drop-nil : (n : ℕ) → drop {A = Bytes} n [] ≡ []
drop-nil zero = refl
drop-nil (suc n) = refl

drop-drop : (n m : ℕ) (xs : List Bytes) → drop n (drop m xs) ≡ drop (m + n) xs
drop-drop n zero xs = ap (λ k. drop k xs) {x = n} {y = 0 + n} (omega arith)
drop-drop n (suc m) [] = drop-nil n ∙ sym (drop-nil (suc m + n))
drop-drop n (suc m) (x ∷ xs) =
    drop-drop n m xs ∙ ap (λ k. drop k (x ∷ xs)) {x = suc (m + n)} {y = suc m + n} (omega arith)

pub last20-append : (xs ys : List Bytes) → last20 (last20 xs ++ ys) ≡ last20 (xs ++ ys)
last20-append xs ys =
    let m = length xs - 20 in
    ap (λ t. drop (length t - 20) t) (drop-append_le m xs ys (omega arith))
    ∙ drop-drop (length (drop m (xs ++ ys)) - 20) m (xs ++ ys)
    ∙ ap (λ k. drop k (xs ++ ys)) (omega (arith, length-append xs ys, length-drop-le m (xs ++ ys)))

pub length-last20 : (xs : List Bytes) → length (last20 xs) ≤ 20
length-last20 xs = omega (arith, length-drop-le (length xs - 20) xs)

pub clipped :
    (out : List Bytes)
    → (if ltb tail_lines (length out) then drop (length out - tail_lines) out else out) ≡ last20 out
clipped out = elim (Bool-cases (ltb tail_lines (length out))) [
  | inl t ↦ if_true _ _ _ t
  | inr t ↦
      if_false _ _ _ t
      ∙ ap (λ k. drop k out) {x = 0} {y = length out - 20}
          (omega (arith, ltb→le tail_lines (length out) t))
]

pub if_append :
    (c : Bool) (xs ys : List Bytes) → (if c then xs else xs ++ ys) ≡ xs ++ (if c then [] else ys)
if_append true xs ys = sym (append-nil xs)
if_append false xs ys = refl

pub last_of-snoc : (xs : List Bytes) (x : Bytes) → last_of (xs ++ x ∷ []) ≡ x
unfolding last_of
last_of-snoc [] x = refl
last_of-snoc (y ∷ []) x = refl
last_of-snoc (y ∷ z ∷ xs) x = last_of-snoc (z ∷ xs) x

last_of-drop : (n : ℕ) (xs : List Bytes) → n < length xs → last_of (drop n xs) ≡ last_of xs
unfolding last_of
last_of-drop zero xs h = refl
last_of-drop (suc n) [] h = absurd (omega arith)
last_of-drop (suc n) (x ∷ []) h = absurd (omega arith)
last_of-drop (suc n) (x ∷ y ∷ xs) h = last_of-drop n (y ∷ xs) (omega arith)

pub last_of-last20 : (xs : List Bytes) → last_of (last20 xs) ≡ last_of xs
last_of-last20 [] = refl
last_of-last20 (x ∷ xs) = last_of-drop (length (x ∷ xs) - 20) (x ∷ xs) (omega arith)
