-- ===== src/Docker/Safety.antt =====
-- The specification of the recreate transaction, for the container that it finds.
pub mod Rollback
pub mod Swap
pub mod Resume
-- The container is still there, under one of the two names.
use workspace_cli.Docker.Client.{Engine, Names, backup, held, primary}
use workspace_cli.Docker.Create.{proxy_create_and_start}
use workspace_cli.Docker.Documented.{lookup, remove_held, rename_held, standing}
use workspace_cli.Docker.Health.{sound, verify_healthy, weak}
use workspace_cli.Docker.Recreate.{commit}
use workspace_cli.Docker.Rollback.{
  Command, Outcome, committed, connect_backup, created, critical, refused, remove_primary,
  restore_name, restored_unhealthy, resumed, rolled_back, run_backup,
}
use workspace_cli.Docker.Routes.{Settings}
use workspace_cli.Prelude.{
  Bool, List, [], if◌then◌else◌, none, some, ℕ, ◌∷◌, ◌≡◌, ◌⊎◌, ap, true, ◌∙◌,
}

abbrev pub Kept : ℕ → Names → Type 0
Kept i ns = (lookup primary ns ≡ some i) ⊎ (lookup backup ns ≡ some i)

abbrev pub Standing : Type 0
Standing = Names × Bool × Bool

-- What one command of a CRITICAL error does to the names and the backup when it works.
abbrev pub run_command : Command → Standing → Standing
run_command remove_primary (ns, a, s) = (remove_held primary ns, a, s)
run_command connect_backup (ns, a, s) = (ns, true, s)
run_command run_backup (ns, a, s) = (ns, a, true)
run_command restore_name (ns, a, s) = (rename_held backup primary ns, a, s)

abbrev pub recover : List Command → Standing → Standing
recover [] st = st
recover (c ∷ cs) st = recover cs (run_command c st)

-- The container i has the proxy's name, is on the proxy network, and was started; there is no backup.
abbrev pub back : ℕ → Standing
back i = (held (some i) none, true, true)

-- The container i is the proxy again, or the commands that remain make it so.
abbrev pub RolledBack : ℕ → Outcome → Standing → Type 0
RolledBack i (rolled_back f) st = st ≡ back i
RolledBack i (restored_unhealthy f) st = st ≡ back i
RolledBack i (critical f g cs) st = Kept i st.0 × (recover cs st ≡ back i)
RolledBack i (committed b) st = ⊥
RolledBack i (created b) st = ⊥
RolledBack i resumed st = ⊥
RolledBack i (refused f) st = ⊥

-- The last steps of a run that is committed in the world `end`: with i put aside as the backup, a new
-- container j is made and started under the proxy's name; the health check of the run finds it in
-- order, healthy or running with no health check; the commit is what follows.
abbrev pub Verified : (e : Engine) → Settings → ℕ → Bool → e.World → Type 0
Verified e cfg i unchecked end =
    (v : e.World) × (u : e.World) × (m : e.World) × (j : ℕ) × (e.names v ≡ held none (some i))
    × (proxy_create_and_start e cfg v ≡ (none, u))
    × (e.names u ≡ held (some j) (some i))
    × (verify_healthy e cfg.health_timeout cfg.start_grace u
        ≡ ((if unchecked then weak else sound), m))
    × (end ≡ (commit e cfg unchecked m).1)

-- A swap that starts with the proxy i and ends in the world w.
abbrev pub Swapped : (e : Engine) → Settings → ℕ → Outcome → e.World → Type 0
Swapped e cfg i (committed b) w = Verified e cfg i b w
Swapped e cfg i (created b) w = ⊥
Swapped e cfg i resumed w = ⊥
Swapped e cfg i (refused f) w = Kept i (e.names w)
Swapped e cfg i (rolled_back f) w = standing e i w ≡ back i
Swapped e cfg i (restored_unhealthy f) w = standing e i w ≡ back i
Swapped e cfg i (critical f g cs) w = Kept i (e.names w) × (recover cs (standing e i w) ≡ back i)

-- A run that starts with no proxy and the backup i. No other container comes under the two names.
abbrev pub Resumed : ℕ → Outcome → Standing → Type 0
Resumed i (committed b) st = ⊥
Resumed i (created b) st = ⊥
Resumed i resumed st = st ≡ back i
Resumed i (refused f) st = (st.0 ≡ held none (some i)) ⊎ (st.0 ≡ held (some i) none)
Resumed i (rolled_back f) st = ⊥
Resumed i (restored_unhealthy f) st = ⊥
Resumed i (critical f g cs) st = ⊥

pub standing-≡ :
    (e : Engine) (i : ℕ) (w : e.World) (ns : Names) (a s : Bool)
    → e.names w ≡ ns
    → e.attached w i ≡ a
    → e.started w i ≡ s
    → standing e i w ≡ (ns, a, s)
standing-≡ e i w ns a s p q r =
    ap (λ x. (x, e.attached w i, e.started w i)) p
    ∙ ap (λ x. (ns, x, e.started w i)) q
    ∙ ap (λ x. (ns, a, x)) r
