-- ===== src/Output/Run.antt =====
-- The step runner of internal/output/run.go: the goroutine that called Run, the owner, and the one
-- that watches for signals, interleaved a locked section or a write at a time. Lines are kept by
-- their meaning; rendering and times are not modelled here. A title is a text, a message a number.
pub mod Moves
pub mod Agree
pub mod Messages
pub mod Results
pub mod Story
pub mod Finish
pub mod Wakeups
pub mod Bound
pub mod Progress
use workspace_cli.Output.State.{State, state_fail, state_ok}
use workspace_cli.Prelude.{
  [], Bool, List, Option, String, false, if◌then◌else◌, not, some, true, ℕ, ◌++◌, ◌||◌, ◌∷◌,
}

pub data TaskState : Type 0 where
  task_closed task_starting task_running task_draining task_interrupted : TaskState

-- What is written to the stream.
pub data Line : Type 0 where
  log_lost frame_drawn frame_erased : Line
  line_started line_idle line_interrupted : String → Line
  line_result : State → String → Line
  said : ℕ → Line

-- What the goroutines share: the runner's task state, the owner's gate and queue, and the stream,
-- oldest line first; whether the frame's ticker runs, and whether a lost log has been reported; and
-- whether the condition variable has been broadcast on since the watcher began to wait on it.
pub record Shared : Type 0 where
  pub state : TaskState
  pub pending : Bool
  pub cur : String
  pub gate : Bool
  pub queue : List ℕ
  pub stream : List Line
  pub ticking : Bool
  pub lost : Bool
  pub woken : Bool

unfoldable pub write_line : Line → Shared → Shared
write_line l w = record w { stream = w.stream ++ l ∷ [] }

-- The lines the runner begins a task with are written between claim and publish.
unfoldable pub claimable : TaskState → Bool → Bool
claimable task_interrupted pending = false
claimable _ pending = not pending

unfoldable pub claim : Shared → Bool × Shared
unfolding claimable
claim w =
    if claimable w.state w.pending then (true, record w { state = task_starting }) else (false, w)

-- With the broadcast on the condition variable.
unfoldable pub publish : String → Shared → Shared
publish title w = record w { state = task_running; cur = title; woken = true }

unfoldable pub leave_from : TaskState → Shared → Bool × Shared
leave_from task_interrupted w = (false, w)
leave_from _ w = (true, record w { state = task_draining })

unfoldable pub leave : Shared → Bool × Shared
unfolding leave_from
leave w = leave_from w.state w

-- With the broadcast.
unfoldable pub settle_task : Shared → Shared
settle_task w = record w { state = task_closed; woken = true }

-- Where a drain stands, with the messages it has taken and not written.
pub data Drain : Type 0 where
  erase_due result_due taking drain_done : Drain
  writing : List ℕ → Drain

-- The messages that a drain has taken and not written.
abbrev pub batch : Drain → List ℕ
batch erase_due = []
batch result_due = []
batch taking = []
batch (writing ms) = ms
batch drain_done = []

-- The locked section of drain's loop: it takes the queue, or finds it empty and closes the gate.
unfoldable pub take_batch : List ℕ → Shared → Drain × Shared
take_batch [] w = (drain_done, record w { gate = false })
take_batch (m ∷ ms) w = (writing (m ∷ ms), record w { queue = [] })

-- One step of a drain with the given result line.
unfoldable pub drain : Line → Drain → Shared → Drain × Shared
unfolding take_batch write_line
drain result erase_due w = (result_due, record (write_line frame_erased w) { ticking = false })
drain result result_due w = (taking, write_line result w)
drain result taking w = take_batch w.queue w
drain result (writing []) w = (taking, w)
drain result (writing (m ∷ ms)) w = (writing ms, write_line (said m) w)
drain result drain_done w = (drain_done, w)

-- How t.Run ends.
pub data Ending : Type 0 where
  ended_ok ended_err ended_panic : Ending

abbrev pub ending_state : Ending → State
ending_state ended_ok = state_ok
ending_state ended_err = state_fail
ending_state ended_panic = state_fail

-- What run gives: nil, the error of a task (none for one that no log could be given), or a panic.
pub data RunOutcome : Type 0 where
  run_ok : RunOutcome
  run_failed : Option String → RunOutcome
  run_panicked : String → List String → RunOutcome

-- Where the owner stands, with the tasks that are left.
pub data Owner : Type 0 where
  next reporting_none halted : List String → Owner
  logged claimed : (kept : Bool) → String → List String → Owner
  warned announced opened framed running : String → List String → Owner
  ended : Ending → String → List String → Owner
  draining : Ending → String → List String → Drain → Owner
  reporting : String → List String → Owner
  returned : RunOutcome → Owner

-- What the runner meets: newLog works, or else the null device, or neither; and a task's end.
pub data LogMade : Type 0 where
  log_kept log_null log_none : LogMade

pub record Env : Type 0 where
  pub log : LogMade
  pub ending : Ending

unfoldable pub make_log : LogMade → String → List String → Owner
make_log log_kept t ts = logged true t ts
make_log log_null t ts = logged false t ts
make_log log_none t ts = reporting_none (t ∷ ts)

unfoldable pub claim_task : Bool → String → List String → Bool × Shared → Owner × Shared
claim_task kept t ts (true, w) = (claimed kept t ts, w)
claim_task kept t ts (false, w) = (halted (t ∷ ts), w)

-- The loss of a log is reported once.
unfoldable pub report_loss : Bool → Shared → Shared
unfolding write_line
report_loss kept w = if kept || w.lost then w else record (write_line log_lost w) { lost = true }

unfoldable pub leave_task : Drain → Ending → String → List String → Bool × Shared → Owner × Shared
leave_task d e t ts (true, w) = (draining e t ts d, w)
leave_task d e t ts (false, w) = (halted (t ∷ ts), w)

-- What follows a task that is settled.
unfoldable pub after : Ending → String → List String → Owner
after ended_ok t ts = next ts
after ended_err t ts = reporting t ts
after ended_panic t ts = returned (run_panicked t ts)

-- Where the watching goroutine stands. `interrupting` is the drain of the running task; `dying`
-- and `died` keep the task that was drained; `killed` is the end by a second signal,
-- wherever the watcher stood.
pub data Watcher : Type 0 where
  waiting blocked gone : Watcher
  killed : Watcher → Watcher
  interrupting : String → Drain → Watcher
  dying died : Option String → Watcher

unfoldable pub settle_after : Ending → String → List String → Drain × Shared → Owner × Shared
unfolding settle_task after
settle_after e t ts (drain_done, w) = (after e t ts, settle_task w)
settle_after e t ts (erase_due, w) = (draining e t ts erase_due, w)
settle_after e t ts (result_due, w) = (draining e t ts result_due, w)
settle_after e t ts (taking, w) = (draining e t ts taking, w)
settle_after e t ts (writing ms, w) = (draining e t ts (writing ms), w)

unfoldable pub die_after : String → Drain × Shared → Watcher × Shared
die_after t (drain_done, w) = (dying (some t), w)
die_after t (erase_due, w) = (interrupting t erase_due, w)
die_after t (result_due, w) = (interrupting t result_due, w)
die_after t (taking, w) = (interrupting t taking, w)
die_after t (writing ms, w) = (interrupting t (writing ms), w)
