-- ===== src/Xrayconf/Decoded.antt =====
-- What encoding/json makes of a value when it is read into Go's `any`: a number becomes a float64. Which
-- numbers have one, and what it is written as, are arguments.
use workspace_cli.Prelude.{Bool, Option, String, arith, none, refl, some, true, ◌&&◌, ◌≡◌}
use workspace_cli.Xrayconf.Values.{
  Fields, Items, Json, Number, arr, bool, cons, end, field, get, nil, null, num, obj, str,
}

pub record Floats : Type 0 where
  pub in_range : Number → Bool
  pub as_float : Number → Number

module _ (lib : Floats) where
  -- No number is out of range.
  unfoldable mutual
    pub reads : Json → Bool
    reads null = true
    reads (bool b) = true
    reads (num n) = lib.in_range n
    reads (str s) = true
    reads (arr items) = reads_items items
    reads (obj m) = reads_fields m

    pub reads_items : Items → Bool
    reads_items nil = true
    reads_items (cons v items) = reads v && reads_items items

    pub reads_fields : Fields → Bool
    reads_fields end = true
    reads_fields (field k v m) = reads v && reads_fields m

  unfoldable mutual
    pub decoded : Json → Json
    decoded null = null
    decoded (bool b) = bool b
    decoded (num n) = num (lib.as_float n)
    decoded (str s) = str s
    decoded (arr items) = arr (decoded_items items)
    decoded (obj m) = obj (decoded_fields m)

    pub decoded_items : Items → Items
    decoded_items nil = nil
    decoded_items (cons v items) = cons (decoded v) (decoded_items items)

    pub decoded_fields : Fields → Fields
    decoded_fields end = end
    decoded_fields (field k v m) = field k (decoded v) (decoded_fields m)

  abbrev pub decoded_member : Option Json → Option Json
  decoded_member none = none
  decoded_member (some v) = some (decoded v)

  pub get-decoded_fields :
      (k : String) (m : Fields) → get k (decoded_fields m) ≡ decoded_member (get k m)
  unfolding get decoded
  get-decoded_fields k end = refl
  get-decoded_fields k (field j v m) = ground (arith, get-decoded_fields k m)
