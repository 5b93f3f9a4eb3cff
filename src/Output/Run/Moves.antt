-- ===== src/Output/Run/Moves.antt =====
-- The steps of the runner's goroutines, of internal/output/run.go: run and runTask, interrupt and watch,
-- the message helpers and the frame's ticker.
use workspace_cli.Output.Run.{
  Drain, Env, Owner, Shared, TaskState, Watcher, announced, blocked, claim, claim_task, claimed,
  die_after, died, drain, draining, dying, ended, ending_state, erase_due, frame_drawn, gone,
  halted, interrupting, killed, leave, leave_task, line_idle, line_interrupted, line_result,
  line_started, logged, make_log, next, opened, publish, report_loss, reporting, reporting_none,
  result_due, returned, run_failed, run_ok, running, said, settle_after, task_closed, task_draining,
  task_interrupted, task_running, task_starting, waiting, warned, write_line, framed,
}
use workspace_cli.Prelude.{
  [], Bool, List, String, false, if◌then◌else◌, none, some, true, ℕ, ◌++◌, ◌∷◌,
}

-- `tty` is whether the stream is framed.
module _ (tty : Bool) where
  unfoldable pub first_drain : Drain
  first_drain = if tty then erase_due else result_due

  unfoldable pub announce : String → Shared → Shared
  unfolding write_line
  announce t w = if tty then w else write_line (line_started t) w

  unfoldable pub draw_frame : Shared → Shared
  unfolding write_line
  draw_frame w = if tty then record (write_line frame_drawn w) { ticking = true } else w

  -- run, runTask: one step of the owner.
  unfoldable pub owner_step : Env → Owner → Shared → Owner × Shared
  unfolding make_log claim_task claim report_loss announce draw_frame publish leave_task leave
      settle_after drain write_line first_drain
  owner_step env (next []) w = (returned run_ok, w)
  owner_step env (next (t ∷ ts)) w = (make_log env.log t ts, w)
  owner_step env (logged kept t ts) w = claim_task kept t ts (claim w)
  owner_step env (claimed kept t ts) w = (warned t ts, report_loss kept w)
  owner_step env (warned t ts) w = (announced t ts, announce t w)
  owner_step env (announced t ts) w = (opened t ts, record w { gate = true })
  owner_step env (opened t ts) w = (framed t ts, draw_frame w)
  owner_step env (framed t ts) w = (running t ts, publish t w)
  owner_step env (running t ts) w = (ended env.ending t ts, w)
  owner_step env (ended e t ts) w = leave_task first_drain e t ts (leave w)
  owner_step env (draining e t ts d) w =
      settle_after e t ts (drain (line_result (ending_state e) t) d w)
  owner_step env (reporting f []) w = (returned (run_failed (some f)), w)
  owner_step env (reporting f (t ∷ ts)) w = (reporting f ts, write_line (line_idle t) w)
  owner_step env (reporting_none []) w = (returned (run_failed none), w)
  owner_step env (reporting_none (t ∷ ts)) w = (reporting_none ts, write_line (line_idle t) w)
  owner_step env (halted ts) w = (halted ts, w)
  owner_step env (returned o) w = (returned o, w)

  -- interrupt's locked section, on the state it finds: it goes to sleep on the condition variable, or
  -- takes the task over.
  unfoldable pub take_over : TaskState → Shared → Watcher × Shared
  unfolding first_drain
  take_over task_starting w = (blocked, record w { woken = false })
  take_over task_draining w = (blocked, record w { woken = false })
  take_over task_running w = (interrupting w.cur first_drain, record w { state = task_interrupted })
  take_over task_closed w = (dying none, record w { state = task_interrupted })
  take_over task_interrupted w = (dying none, record w { state = task_interrupted })

  -- cond.Wait: only a broadcast wakes the watcher, which then looks at the state again.
  unfoldable pub wake : Bool → Shared → Watcher × Shared
  unfolding take_over
  wake true w = take_over w.state w
  wake false w = (blocked, w)

  -- One step of the watcher after its signal.
  unfoldable pub watcher_step : Watcher → Shared → Watcher × Shared
  unfolding wake die_after drain
  watcher_step waiting w = (waiting, w)
  watcher_step blocked w = wake w.woken w
  watcher_step (interrupting t d) w = die_after t (drain (line_interrupted t) d w)
  watcher_step (dying t) w = (died t, w)
  watcher_step (died t) w = (died t, w)
  watcher_step (killed was) w = (killed was, w)
  watcher_step gone w = (gone, w)

  -- A caught signal.
  unfoldable pub catch_signal : Watcher → Shared → Watcher × Shared
  unfolding take_over
  catch_signal waiting w = take_over w.state (record w { pending = true })
  catch_signal wt w = (wt, w)

-- A second signal, whose grace has passed.
unfoldable pub second_signal : Watcher → Watcher
second_signal blocked = killed blocked
second_signal (interrupting t d) = killed (interrupting t d)
second_signal (dying t) = killed (dying t)
second_signal wt = wt

-- Run's deferred stop: the watcher quits when no signal is waiting.
unfoldable pub quit : Owner → Watcher → Watcher
quit (returned o) waiting = gone
quit o wt = wt

-- A message helper, which queues its line by `enqueue` or writes it itself.
unfoldable pub say : ℕ → Shared → Shared
unfolding write_line
say m w = if w.gate then record w { queue = w.queue ++ m ∷ [] } else write_line (said m) w

unfoldable pub redraw : Shared → Shared
unfolding write_line
redraw w = if w.ticking then write_line frame_drawn w else w

-- The system, with the messages that have been said, oldest first.
pub record System : Type 0 where
  pub owner : Owner
  pub watcher : Watcher
  pub shared : Shared
  pub spoken : List ℕ

pub data Move : Type 0 where
  own : Env → Move
  watch signal again stop tick : Move
  speak : ℕ → Move

abbrev pub is_over : Watcher → Bool
is_over (died t) = true
is_over (killed was) = true
is_over _ = false

module _ (tty : Bool) where
  unfoldable pub move : Move → System → System
  unfolding owner_step watcher_step catch_signal second_signal quit say redraw
  move (own env) s =
      let (o, w) = owner_step tty env s.owner s.shared in record s { owner = o; shared = w }
  move watch s =
      let (wt, w) = watcher_step tty s.watcher s.shared in record s { watcher = wt; shared = w }
  move signal s =
      let (wt, w) = catch_signal tty s.watcher s.shared in record s { watcher = wt; shared = w }
  move again s = record s { watcher = second_signal s.watcher }
  move stop s = record s { watcher = quit s.owner s.watcher }
  move tick s = record s { shared = redraw s.shared }
  move (speak m) s = record s { shared = say m s.shared; spoken = s.spoken ++ m ∷ [] }

  -- Nothing moves once the process has ended.
  unfoldable pub step : Move → System → System
  unfolding move
  step m s = if is_over s.watcher then s else move m s

  unfoldable pub play : List Move → System → System
  unfolding step
  play [] s = s
  play (m ∷ ms) s = play ms (step m s)

abbrev pub start : List String → System
start ts = record {
  owner = next ts;
  watcher = waiting;
  shared = record {
    state = task_closed;
    pending = false;
    cur = "";
    gate = false;
    queue = [];
    stream = [];
    ticking = false;
    lost = false;
    woken = false;
  };
  spoken = [];
}
