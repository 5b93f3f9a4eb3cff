-- ===== src/Output/Run/Agree.antt =====
-- How the owner, the watcher and the shared state of internal/output/run.go agree.
pub mod Own
pub mod Watch
pub mod Steps
use workspace_cli.Output.Run.{
  Drain, Ending, Owner, RunOutcome, Shared, TaskState, Watcher, announced, blocked, claimed, died,
  drain_done, draining, dying, ended, erase_due, framed, gone, halted, interrupting, killed, logged,
  next, opened, reporting, reporting_none, result_due, returned, running, taking, task_closed,
  task_draining, task_interrupted, task_running, task_starting, waiting, warned, writing,
}
use workspace_cli.Prelude.{Bool, List, Option, String, [], false, none, some, true, ◌∷◌, ◌≡◌}

abbrev pub state_of : Owner → TaskState
state_of (next ts) = task_closed
state_of (reporting_none ts) = task_closed
state_of (halted ts) = task_closed
state_of (logged kept t ts) = task_closed
state_of (claimed kept t ts) = task_starting
state_of (warned t ts) = task_starting
state_of (announced t ts) = task_starting
state_of (opened t ts) = task_starting
state_of (framed t ts) = task_starting
state_of (running t ts) = task_running
state_of (ended e t ts) = task_running
state_of (draining e t ts d) = task_draining
state_of (reporting f ts) = task_closed
state_of (returned o) = task_closed

abbrev pub open_of : Drain → Bool
open_of erase_due = true
open_of result_due = true
open_of taking = true
open_of (writing ms) = true
open_of drain_done = false

abbrev pub gate_of : Owner → Bool
gate_of (next ts) = false
gate_of (reporting_none ts) = false
gate_of (halted ts) = false
gate_of (logged kept t ts) = false
gate_of (claimed kept t ts) = false
gate_of (warned t ts) = false
gate_of (announced t ts) = false
gate_of (opened t ts) = true
gate_of (framed t ts) = true
gate_of (running t ts) = true
gate_of (ended e t ts) = true
gate_of (draining e t ts d) = open_of d
gate_of (reporting f ts) = false
gate_of (returned o) = false

abbrev pub Titled : Owner → String → Type 0
Titled (next ts) c = Unit
Titled (reporting_none ts) c = Unit
Titled (halted []) c = ⊥
Titled (halted (t ∷ ts)) c = Unit
Titled (logged kept t ts) c = Unit
Titled (claimed kept t ts) c = Unit
Titled (warned t ts) c = Unit
Titled (announced t ts) c = Unit
Titled (opened t ts) c = Unit
Titled (framed t ts) c = Unit
Titled (running t ts) c = c ≡ t
Titled (ended e t ts) c = c ≡ t
Titled (draining e t ts d) c = Unit
Titled (reporting f ts) c = Unit
Titled (returned o) c = Unit

-- Owners while the running task t is drained by the watcher.
pub data Active (t : String) : Owner → Type 0 where
  active_running : (ts : List String) → Active t (running t ts)
  active_ended : (e : Ending) (ts : List String) → Active t (ended e t ts)
  active_halted : (ts : List String) → Active t (halted (t ∷ ts))

-- Owners beside a dying watcher, and the task that it drained.
pub data Parked : Option String → Owner → Type 0 where
  parked_next : (ts : List String) → Parked none (next ts)
  parked_none : (ts : List String) → Parked none (reporting_none ts)
  parked_logged : (k : Bool) (t : String) (ts : List String) → Parked none (logged k t ts)
  parked_reporting : (f : String) (ts : List String) → Parked none (reporting f ts)
  parked_returned : (o : RunOutcome) → Parked none (returned o)
  parked_halted : (t : String) (ts : List String) → Parked none (halted (t ∷ ts))
  parked_active : {t : String} {o : Owner} → Active t o → Parked (some t) o

-- The state is the owner's until the watcher takes the task over.
pub record Free (o : Owner) (pending : Bool) (w : Shared) : Type 0 where
  pub at : w.state ≡ state_of o
  pub opens : w.gate ≡ gate_of o
  pub bars : w.pending ≡ pending
  pub titled : Titled o w.cur

pub record Taken (gate : Bool) (w : Shared) : Type 0 where
  pub at : w.state ≡ task_interrupted
  pub opens : w.gate ≡ gate
  pub bars : w.pending ≡ true

pub data Done : Owner → Type 0 where
  done_returned : (r : RunOutcome) → Done (returned r)

abbrev pub Consistent : Owner → Watcher → Shared → Type 0
Consistent o waiting w = Free o false w
Consistent o blocked w = Free o true w
Consistent o (interrupting t d) w = Taken (open_of d) w × Active t o
Consistent o (dying was) w = Taken false w × Parked was o
Consistent o (died was) w = Taken false w × Parked was o
Consistent o (killed was) w = Consistent o was w
Consistent o gone w = Free o false w × Done o

-- A closed gate has an empty queue.
abbrev pub Emptied : Shared → Type 0
Emptied w = w.gate ≡ false → w.queue ≡ []
