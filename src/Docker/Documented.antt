-- ===== src/Docker/Documented.antt =====
-- What Docker's documentation says of the calls, as far as the containers' names go: the hypotheses
-- of the theorems about the recreate transaction.
use workspace_cli.Docker.Client.{
  Engine, Inspect, Name, Names, absent, backup, broken, done, failed, held, primary, seen,
  stateless,
}
use workspace_cli.Prelude.{Option, String, none, some, ℕ, ◌≡◌, ◌≢◌, ◌⊎◌, Bool, ap, true}

abbrev pub lookup : Name → Names → Option ℕ
lookup primary (held p b) = p
lookup backup (held p b) = b

abbrev pub remove_held : Name → Names → Names
remove_held primary (held p b) = held none b
remove_held backup (held p b) = held p none

-- A rename needs its source, and its target to be free.
abbrev pub rename_held : Name → Name → Names → Names
rename_held primary backup (held (some i) none) = held none (some i)
rename_held backup primary (held none (some i)) = held (some i) none
rename_held a b ns = ns

abbrev pub Movable : Name → Name → Names → Type 0
Movable primary backup (held (some i) none) = Unit
Movable backup primary (held none (some i)) = Unit
Movable a b ns = ⊥

-- A create needs the primary name to be free.
abbrev pub create_held : ℕ → Names → Names
create_held i (held none b) = held (some i) b
create_held i (held (some j) b) = held (some j) b

-- An inspect that is answered tells whether there is a container.
abbrev pub Reports : Inspect → Option ℕ → Type 0
Reports absent o = o ≡ none
Reports (broken late) o = Unit
Reports stateless o = (i : ℕ) × (o ≡ some i)
Reports (seen s) o = (i : ℕ) × (o ≡ some i)

-- What the engine holds under the two names, and of the container i.
abbrev pub standing : (e : Engine) → ℕ → e.World → Names × Bool × Bool
standing e i w = (e.names w, e.attached w i, e.started w i)

-- The calls that only read, that make the network, or that replace routes leave an observation alone.
pub record IsQuiet (e : Engine) {X : Type 0} (see : e.World → X) : Type 0 where
  pub client_keeps : (w : e.World) → see (e.new_client w).1 ≡ see w
  pub inspect_keeps : (n : Name) (w : e.World) → see (e.inspect n w).1 ≡ see w
  pub image_keeps : (w : e.World) → see (e.image_inspect w).1 ≡ see w
  pub network_keeps : (w : e.World) → see (e.network_inspect w).1 ≡ see w
  pub network_create_keeps : (w : e.World) → see (e.network_create w).1 ≡ see w
  pub stat_keeps : (w : e.World) → see (e.stat_config w).1 ≡ see w
  pub exec_keeps : (n : String) (w : e.World) → see (e.route_exec n w).1 ≡ see w
  pub wait_keeps : (w : e.World) → see (e.wait w).1 ≡ see w

-- A call that fails may have taken effect or not. A remove is done, or finds nothing to remove,
-- only if the name is free behind it. A rename is done only if it was possible.
pub record Documented (e : Engine) : Type 0 where
  pub quiet : (i : ℕ) → IsQuiet e (standing e i)
  pub inspect_reports : (n : Name) (w : e.World) → Reports (e.inspect n w).0 (lookup n (e.names w))
  pub stop_keeps : (n : Name) (w : e.World) → e.names (e.stop n w).1 ≡ e.names w
  pub start_keeps : (n : Name) (w : e.World) → e.names (e.start n w).1 ≡ e.names w
  pub connect_keeps : (n : Name) (w : e.World) → e.names (e.connect n w).1 ≡ e.names w
  pub disconnect_keeps : (n : Name) (w : e.World) → e.names (e.disconnect n w).1 ≡ e.names w
  -- a connect or a start that is done
  pub connect_done :
      (n : Name) (w : e.World) (i : ℕ)
      → lookup n (e.names w) ≡ some i
      → (e.connect n w).0 ≡ done
      → e.attached (e.connect n w).1 i ≡ true
  pub start_done :
      (n : Name) (w : e.World) (i : ℕ)
      → lookup n (e.names w) ≡ some i
      → (e.start n w).0 ≡ done
      → e.started (e.start n w).1 i ≡ true
  pub start_attached :
      (n : Name) (w : e.World) (i : ℕ) → e.attached (e.start n w).1 i ≡ e.attached w i
  pub rename_attached :
      (a b : Name) (w : e.World) (i : ℕ) → e.attached (e.rename a b w).1 i ≡ e.attached w i
  pub rename_started :
      (a b : Name) (w : e.World) (i : ℕ) → e.started (e.rename a b w).1 i ≡ e.started w i
  pub remove_held_or :
      (n : Name) (w : e.World)
      → (e.names (e.remove n w).1 ≡ e.names w)
        ⊎ (e.names (e.remove n w).1 ≡ remove_held n (e.names w))
  pub remove_done :
      (n : Name) (w : e.World)
      → (e.remove n w).0 ≢ failed
      → e.names (e.remove n w).1 ≡ remove_held n (e.names w)
  pub rename_held_or :
      (a b : Name) (w : e.World)
      → (e.names (e.rename a b w).1 ≡ e.names w)
        ⊎ (e.names (e.rename a b w).1 ≡ rename_held a b (e.names w))
  pub rename_done :
      (a b : Name) (w : e.World)
      → (e.rename a b w).0 ≡ done
      → Movable a b (e.names w) × (e.names (e.rename a b w).1 ≡ rename_held a b (e.names w))
  pub create_held_or :
      (w : e.World)
      → (e.names (e.create w).1 ≡ e.names w)
        ⊎ ((i : ℕ) × (e.names (e.create w).1 ≡ create_held i (e.names w)))
  pub create_done :
      (w : e.World)
      → (e.create w).0 ≡ done
      → (i : ℕ) × (e.names (e.create w).1 ≡ create_held i (e.names w))

pub names-IsQuiet : (e : Engine) → Documented e → IsQuiet e e.names
names-IsQuiet e d =
    let q = d.quiet 0 in
    record {
      client_keeps = λ w. ap (λ s. s.0) (q.client_keeps w);
      inspect_keeps = λ n w. ap (λ s. s.0) (q.inspect_keeps n w);
      image_keeps = λ w. ap (λ s. s.0) (q.image_keeps w);
      network_keeps = λ w. ap (λ s. s.0) (q.network_keeps w);
      network_create_keeps = λ w. ap (λ s. s.0) (q.network_create_keeps w);
      stat_keeps = λ w. ap (λ s. s.0) (q.stat_keeps w);
      exec_keeps = λ n w. ap (λ s. s.0) (q.exec_keeps n w);
      wait_keeps = λ w. ap (λ s. s.0) (q.wait_keeps w);
    }
