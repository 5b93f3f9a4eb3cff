-- ===== src/Xray/Commit.antt =====
-- `writeProfileValidated` of internal/xray/profile.go: a profile is staged, tested inside the
-- container, and renamed over its target.
pub mod Gate
use workspace_cli.Prelude.{Bool, Bytes, List, [], if◌then◌else◌, not, some, ℕ, ◌++◌, ◌∷◌}
use workspace_cli.Xray.Store.{Content, Store, file, set_profile}

-- The outcomes of the calls; a staging file is known by its time stamp.
pub record Gates : Type 0 where
  -- `verifyProxyReadyFn` returns nil
  pub ready : Bool
  -- the unvalidated write
  pub writes : Bool
  -- the glob for the debris of earlier runs
  pub globs : Bool
  pub stages : Bool
  pub accepts : Bool
  pub renames : Bool
  -- `os.Remove` of a staging file
  pub removes : ℕ → Bool
  -- `time.Now().UnixNano()`
  pub stamp : ℕ

-- The store, and this name's staging files at the root of the bind.
pub record Staged : Type 0 where
  pub store : Store
  pub stages : List ℕ

pub data CommitReply : Type 0 where
  validated unvalidated : CommitReply
  write_failed stage_failed rejected commit_failed : CommitReply

-- Every file of the list is removed, best effort.
unfoldable pub sweep : (ℕ → Bool) → List ℕ → List ℕ
sweep removes [] = []
sweep removes (x ∷ xs) = let rest = sweep removes xs in if removes x then rest else x ∷ rest

unfoldable pub write_unvalidated : Gates → Bytes → Content → Staged → CommitReply × Staged
write_unvalidated g name c w =
    if g.writes
    then (
      unvalidated,
      record { store = set_profile name (some (file c)) w.store; stages = w.stages },
    )
    else (write_failed, w)

-- With the debris swept and the stage written.
unfoldable pub test_stage : Gates → Bytes → Content → Store → List ℕ → CommitReply × Staged
unfolding sweep
test_stage g name c s old =
    if not g.accepts
    then (rejected, record { store = s; stages = sweep g.removes (g.stamp ∷ []) ++ old })
    else if g.renames
    then (validated, record { store = set_profile name (some (file c)) s; stages = old })
    else (commit_failed, record { store = s; stages = sweep g.removes (g.stamp ∷ []) ++ old })

unfoldable pub write_staged : Gates → Bytes → Content → Staged → CommitReply × Staged
unfolding sweep test_stage
write_staged g name c w =
    let old = if g.globs then sweep g.removes w.stages else w.stages in
    if g.stages
    then test_stage g name c w.store old
    else (stage_failed, record { store = w.store; stages = old })

unfoldable pub write_profile_validated : Gates → Bytes → Content → Staged → CommitReply × Staged
unfolding write_unvalidated write_staged
write_profile_validated g name c w =
    if g.ready then write_staged g name c w else write_unvalidated g name c w
