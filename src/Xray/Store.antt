-- ===== src/Xray/Store.antt =====
-- The files that internal/xray works on: what stands at `cfg.XrayConfig`, and the files
-- <name>.json in `cfg.XrayProfilesDir`, by their names. A system call that can fail for a reason
-- outside the store (permissions, a full disk) is an input of the operation that makes it.
use workspace_cli.Prelude.{
  Bool, Bool-cases, Bytes, List, Option, ap, false, if◌then◌else◌, inl, inr, some, text_eq,
  text_eq_refl, text_eq→≡, true, ◌&&◌, ◌≡◌, ◌≢◌,
}

-- What encoding/json reads of a file: a top-level object, its values raw, a null, or anything else.
pub data Content : Type 0 where
  json_null : Content
  object : List (Bytes × Bytes) → Content
  not_object : Bytes → Content

pub data Node : Type 0 where
  file : Content → Node
  -- a symbolic link, by its target
  link : Bytes → Node
  -- a directory, a device
  other : Node

pub record Store : Type 0 where
  pub config : Option Node
  pub profiles : Bytes → Option Node
  -- whether a link in the profiles directory leads to a file
  pub resolves : Bytes → Bool

unfoldable pub update : Bytes → Option Node → (Bytes → Option Node) → Bytes → Option Node
update name node f n = if text_eq n name then node else f n

pub update-same :
    (name : Bytes) (node : Option Node) (f : Bytes → Option Node) → update name node f name ≡ node
unfolding update
update-same name node f = ap (λ b. if b then node else f name) (text_eq_refl name)

pub update-other :
    (name n : Bytes) (node : Option Node) (f : Bytes → Option Node)
    → n ≢ name
    → update name node f n ≡ f n
unfolding update
update-other name n node f h = elim (Bool-cases (text_eq n name)) [
  | inl p ↦ absurd (h (text_eq→≡ n name p))
  | inr p ↦ ap (λ b. if b then node else f n) p
]

unfoldable pub set_config : Node → Store → Store
set_config node s = record s { config = some node }

unfoldable pub set_profile : Bytes → Option Node → Store → Store
set_profile name node s = record s { profiles = update name node s.profiles }

-- `fsutil.AtomicSymlink` at `cfg.XrayConfig`: the temporary link, then the rename over the path.
-- true for nil.
unfoldable pub atomic_symlink : Bool → Bool → Bytes → Store → Bool × Store
unfolding set_config
atomic_symlink made renamed target s =
    if made && renamed then (true, set_config (link target) s) else (false, s)
