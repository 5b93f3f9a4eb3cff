-- ===== src/Xrayconf/Values.antt =====
-- JSON values as Go's `any` has them: a map is the list of its members, with what stands first under a
-- key. Texts are lists of bytes, keys are literals.
use Prim.Native.Char.{code}
use workspace_cli.Prelude.{
  [], Bool, Bytes, Option, String, arith, eq_iff, if◌then◌else◌, none, refl, some, str_eq, ℕ, ◌∷◌,
  ◌≡◌,
}

abbrev pub bytes : String → Bytes
bytes String.[] = []
bytes (String.◌∷◌ c s) = code c ∷ bytes s

-- A number as an integer, or as it is written.
pub data Number : Type 0 where
  int : ℕ → Number
  literal : Bytes → Number

mutual
  pub data Json : Type 0 where
    null : Json
    bool : Bool → Json
    num : Number → Json
    str : Bytes → Json
    arr : Items → Json
    obj : Fields → Json

  pub data Items : Type 0 where
    nil : Items
    cons : Json → Items → Items

  pub data Fields : Type 0 where
    end : Fields
    field : String → Json → Fields → Fields

abbrev pub text : String → Json
text s = str (bytes s)

-- m[k]
unfoldable pub get : String → Fields → Option Json
get k end = none
get k (field j v m) = let rest = get k m in if str_eq j k then some v else rest

-- m[k] = v
unfoldable pub put : String → Json → Fields → Fields
put k v end = field k v end
put k v (field j w m) = let rest = put k v m in if str_eq j k then field k v m else field j w rest

-- delete(m, k)
unfoldable pub remove : String → Fields → Fields
remove k end = end
remove k (field j w m) = let rest = remove k m in if str_eq j k then rest else field j w rest

pub get-put :
    (k j : String) (v : Json) (m : Fields)
    → get j (put k v m) ≡ (if str_eq k j then some v else get j m)
unfolding get put
get-put k j v end = refl
get-put k j v (field i w m) = ground (arith, eq_iff k j, eq_iff i k, eq_iff i j, get-put k j v m)

pub get-remove :
    (k j : String) (m : Fields) → get j (remove k m) ≡ (if str_eq k j then none else get j m)
unfolding get remove
get-remove k j end = ground arith
get-remove k j (field i w m) = ground (arith, eq_iff k j, eq_iff i k, eq_iff i j, get-remove k j m)
