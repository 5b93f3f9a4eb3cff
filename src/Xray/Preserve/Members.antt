-- ===== src/Xray/Preserve/Members.antt =====
-- `applyOwnedKeys`, key by key.
-- The last entry for a key, which is the one that the loop leaves.
use workspace_cli.Prelude.{
  Bytes, List, Option, [], if_intro, if◌then◌else◌, none, refl, some, text_eq, ◌∷◌, ◌≡◌, Bool, ap,
  false, false≢true, sym, text_eq_iff, text_eq→≡, true, ◌∙◌,
}
use workspace_cli.Xray.Preserve.{
  Members, apply_each, delete_key, member, set_key, apply_owned, apply_owned_keys, unmarshal,
  unmarshal_onto,
}
use workspace_cli.Xray.Store.{Content, json_null, not_object, object}
use workspace_cli.Xrayconf.Values.{text}

abbrev pub owner : Bytes → List (Bytes × Option Bytes) → Option (Option Bytes)
owner k [] = none
owner k ((key, v) ∷ owned) =
    let rest = owner k owned in
    elim rest [ some x ↦ some x | none ↦ if text_eq k key then some v else none ]

-- What a key has behind the loop.
abbrev pub or_kept : Option (Option Bytes) → Option Bytes → Option Bytes
or_kept none kept = kept
or_kept (some v) kept = v

module _ (k : Bytes) where
  -- The entry in front, when the key is deleted.
  delete-front :
      (a b c : Bool) (v : Bytes) (x m : Option Bytes)
      → m ≡ (if b then none else x)
      → (a ≡ true → b ≡ c)
      → (b ≡ true → c ≡ true → a ≡ true)
      → (if a then m else if c then some v else m) ≡ (if b then none else if c then some v else x)
  delete-front true true c v x m h f g = h
  delete-front true false true v x m h f g = absurd (false≢true (f refl))
  delete-front true false false v x m h f g = h
  delete-front false true true v x m h f g = absurd (false≢true (g refl refl))
  delete-front false true false v x m h f g = h
  delete-front false false true v x m h f g = refl
  delete-front false false false v x m h f g = h

  member-if :
      (a : Bool) (key v : Bytes) (ms : Members)
      → member k (if a then ms else (key, v) ∷ ms)
        ≡ (if a then member k ms else if text_eq k key then some v else member k ms)
  unfolding member
  member-if true key v ms = refl
  member-if false key v ms = refl

  member-delete_key :
      (d : Bytes) (ms : Members)
      → member k (delete_key d ms) ≡ (if text_eq k d then none else member k ms)
  unfolding member delete_key
  member-delete_key d [] =
      if_intro (λ (x : Option Bytes). none ≡ x) (text_eq k d) none none (λ _. refl) (λ _. refl)
  member-delete_key d ((key, v) ∷ ms) =
      member-if (text_eq d key) key v (delete_key d ms)
      ∙ delete-front (text_eq d key) (text_eq k d) (text_eq k key) v (member k ms) _
          (member-delete_key d ms) (λ h. ap (text_eq k) (text_eq→≡ d key h))
          λ h g. (text_eq_iff d key).1 (sym (text_eq→≡ k d h) ∙ text_eq→≡ k key g)

  same_test :
      (b : Bool) (v x : Option Bytes)
      → (if b then v else if b then none else x) ≡ (if b then v else x)
  same_test true v x = refl
  same_test false v x = refl

  member-set_key :
      (d v : Bytes) (ms : Members)
      → member k (set_key d v ms) ≡ (if text_eq k d then some v else member k ms)
  unfolding member set_key
  member-set_key d v ms =
      ap (λ x. if text_eq k d then some v else x) (member-delete_key d ms)
      ∙ same_test (text_eq k d) (some v) (member k ms)

  later :
      (o : Option (Option Bytes)) (b : Bool) (w m : Option Bytes)
      → or_kept o (if b then w else m)
        ≡ or_kept (elim o [ some x ↦ some x | none ↦ if b then some w else none ]) m
  later none true w m = refl
  later none false w m = refl
  later (some x) b w m = refl

  pub member-apply_each :
      (owned : List (Bytes × Option Bytes)) (raw : Members)
      → member k (apply_each owned raw) ≡ or_kept (owner k owned) (member k raw)
  unfolding apply_each
  member-apply_each [] raw = refl
  member-apply_each ((d, none) ∷ owned) raw =
      member-apply_each owned (delete_key d raw)
      ∙ ap (or_kept (owner k owned)) (member-delete_key d raw)
      ∙ later (owner k owned) (text_eq k d) none (member k raw)
  member-apply_each ((d, some v) ∷ owned) raw =
      member-apply_each owned (set_key d v raw)
      ∙ ap (or_kept (owner k owned)) (member-set_key d v raw)
      ∙ later (owner k owned) (text_eq k d) (some v) (member k raw)

-- What a file that encoding/json reads as an object has under a key.
abbrev pub value : Bytes → Content → Option Bytes
value k json_null = none
value k (not_object text) = none
value k (object ms) = member k (unmarshal_onto ms [])

abbrev pub IsSplice : Content → List (Bytes × Option Bytes) → Option Content → Type 0
IsSplice (not_object text) owned out = out ≡ none
IsSplice original owned none = ⊥
IsSplice original owned (some json_null) = ⊥
IsSplice original owned (some (not_object text)) = ⊥
IsSplice original owned (some (object out)) =
    (k : Bytes) → member k out ≡ or_kept (owner k owned) (value k original)

-- An object is rewritten, and a null as an object with no members; all else is refused. A key that is owned has the value given for it
-- behind the rewrite, or is gone when none is given (of two entries for a key, the last counts);
-- every other key keeps the value that encoding/json reads for it.
pub apply_owned_keys-IsSplice :
    (original : Content) (owned : List (Bytes × Option Bytes))
    → IsSplice original owned (apply_owned_keys original owned)
unfolding apply_owned_keys apply_owned unmarshal member
apply_owned_keys-IsSplice (not_object text) owned = refl
apply_owned_keys-IsSplice json_null owned = λ k. member-apply_each k owned []
apply_owned_keys-IsSplice (object ms) owned = λ k. member-apply_each k owned (unmarshal_onto ms [])
