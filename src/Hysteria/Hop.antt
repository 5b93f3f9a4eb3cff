-- ===== src/Hysteria/Hop.antt =====
-- `portNum` and `hopBasePort` of internal/hysteria2/parser.go. Strings are lists of bytes.
pub mod Pieces
pub mod Clean
pub mod Port
pub mod Spec
use workspace_cli.Prelude.{
  Bool, Bytes, List, Option, [], false, if◌then◌else◌, leb, none, not, some, true, ℕ, ◌&&◌, ◌*◌,
  ◌+◌, ◌-◌, ◌==◌, ◌||◌, ◌∷◌,
}

unfoldable pub digits_value : ℕ → Bytes → Option ℕ
digits_value n [] = some n
digits_value n (c ∷ cs) =
    let rest = digits_value (n * 10 + (c - 48)) cs in if leb 48 c && leb c 57 then rest else none

unfoldable pub unsigned : Bytes → Option ℕ
unsigned [] = none
unsigned (c ∷ cs) = digits_value 0 (c ∷ cs)

-- `strconv.Atoi`, for a result above 0: a plus sign is let pass.
unfoldable pub positive : Bytes → Option ℕ
unfolding unsigned
positive [] = none
positive (c ∷ cs) =
    let signed = unsigned cs in
    let plain = unsigned (c ∷ cs) in if c == 43 then signed else if c == 45 then none else plain

unfoldable pub in_range : Option ℕ → Option ℕ
in_range none = none
in_range (some n) = if leb 1 n && leb n 65535 then some n else none

-- `portNum`; none for not ok.
unfoldable pub port_num : Bytes → Option ℕ
unfolding in_range positive
port_num s = in_range (positive s)

unfoldable pub contains : ℕ → Bytes → Bool
contains b [] = false
contains b (c ∷ cs) = c == b || contains b cs

-- `strings.Cut` at one byte: the text before it, and the text behind it if it is there.
unfoldable pub cut : ℕ → Bytes → Bytes × Option Bytes
cut b [] = ([], none)
cut b (c ∷ cs) =
    let (before, after) = cut b cs in if c == b then ([], some cs) else (c ∷ before, after)

-- `strings.Split` at one byte: the first item, and the others.
unfoldable pub split : ℕ → Bytes → Bytes × List Bytes
split b [] = ([], [])
split b (c ∷ cs) =
    let (first, others) = split b cs in if c == b then ([], first ∷ others) else (c ∷ first, others)

unfoldable pub le_port : Option ℕ → Option ℕ → Bool
le_port (some lo) (some hi) = leb lo hi
le_port none hi = false
le_port (some lo) none = false

-- One pass of the loop: the item is a port, or a range of ports.
unfoldable pub check_item : Bytes × Option Bytes → Bool
check_item (lo, none) = elim (port_num lo) [ some n ↦ true | none ↦ false ]
check_item (lo, some hi) = le_port (port_num lo) (port_num hi)

unfoldable pub check_items : List Bytes → Bool
check_items [] = true
check_items (item ∷ items) = check_item (cut 45 item) && check_items items

-- none for not ok.
unfoldable pub hop_base_port : Bytes → Option Bytes
unfolding check_items
hop_base_port spec =
    let (first, others) = split 44 spec in
    if not (contains 44 spec || contains 45 spec)
    then none
    else if check_items (first ∷ others)
    then some (cut 45 first).0
    else none
