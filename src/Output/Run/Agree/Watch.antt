-- ===== src/Output/Run/Agree/Watch.antt =====
-- The watcher's steps, and the agreement of the goroutines.
use workspace_cli.Output.Run.{
  Drain, Line, Owner, Shared, TaskState, Watcher, announced, blocked, claimed, die_after, died,
  drain, drain_done, draining, dying, ended, erase_due, framed, gone, halted, interrupting, killed,
  line_interrupted, logged, next, opened, reporting, reporting_none, result_due, returned, running,
  take_batch, taking, task_closed, task_draining, task_interrupted, task_running, task_starting,
  waiting, warned, write_line, writing,
}
use workspace_cli.Output.Run.Agree.{
  Active, Consistent, Emptied, Free, Taken, active_ended, active_running, open_of, parked_active,
  parked_halted, parked_logged, parked_next, parked_none, parked_reporting, parked_returned,
  state_of,
}
use workspace_cli.Output.Run.Agree.Own.{Emptied-drain}
use workspace_cli.Output.Run.Moves.{catch_signal, first_drain, take_over, watcher_step, wake}
use workspace_cli.Prelude.{
  [], Bool, List, String, arith, refl, subst, sym, true, ℕ, ◌∙◌, ◌∷◌, ◌≡◌, false,
}

-- A step of the watcher's drain.
pub Taken-die_after :
    (t : String) (o : Owner) (d : Drain) (w : Shared)
    → Taken (open_of d) w
    → Active t o
    → Consistent o (die_after t (d, w)).0 (die_after t (d, w)).1
unfolding die_after
Taken-die_after t o erase_due w h a = (h, a)
Taken-die_after t o result_due w h a = (h, a)
Taken-die_after t o taking w h a = (h, a)
Taken-die_after t o (writing ms) w h a = (h, a)
Taken-die_after t o drain_done w h a = (h, parked_active a)

Taken-take_batch :
    (q : List ℕ) (w : Shared) → Taken true w → Taken (open_of (take_batch q w).0) (take_batch q w).1
unfolding take_batch
Taken-take_batch [] w h = ground arith
Taken-take_batch (m ∷ q) w h = ground arith

Taken-drain :
    (d : Drain) (l : Line) (w : Shared)
    → Taken (open_of d) w
    → Taken (open_of (drain l d w).0) (drain l d w).1
unfolding drain write_line
Taken-drain erase_due l w h = ground arith
Taken-drain result_due l w h = ground arith
Taken-drain taking l w h = Taken-take_batch w.queue w h
Taken-drain drain_done l w h = h
Taken-drain (writing []) l w h = ground arith
Taken-drain (writing (m ∷ ms)) l w h = ground arith

Emptied-die_after :
    (t : String) (d : Drain) (w : Shared) → Emptied w → Emptied (die_after t (d, w)).1
unfolding die_after
Emptied-die_after t erase_due w h = h
Emptied-die_after t result_due w h = h
Emptied-die_after t taking w h = h
Emptied-die_after t (writing ms) w h = h
Emptied-die_after t drain_done w h = h

module _ (tty : Bool) where
  open_of-first_drain : open_of (first_drain tty) ≡ true
  unfolding first_drain
  open_of-first_drain = ground arith

  asleep-Free : (o : Owner) (w : Shared) → Free o true w → Free o true (record w { woken = false })
  asleep-Free o w h = record { at = h.at; opens = h.opens; bars = h.bars; titled = h.titled }

  -- The watcher's locked section, at the state of each owner.
  Consistent-take_over :
      (o : Owner) (w : Shared)
      → Free o true w
      → Consistent o (take_over tty (state_of o) w).0 (take_over tty (state_of o) w).1
  unfolding take_over
  Consistent-take_over (next ts) w h = (ground arith, parked_next ts)
  Consistent-take_over (reporting_none ts) w h = (ground arith, parked_none ts)
  Consistent-take_over (halted []) w h = absurd h.titled
  Consistent-take_over (halted (t ∷ ts)) w h = (ground arith, parked_halted t ts)
  Consistent-take_over (logged k t ts) w h = (ground arith, parked_logged k t ts)
  Consistent-take_over (claimed k t ts) w h = asleep-Free (claimed k t ts) w h
  Consistent-take_over (warned t ts) w h = asleep-Free (warned t ts) w h
  Consistent-take_over (announced t ts) w h = asleep-Free (announced t ts) w h
  Consistent-take_over (opened t ts) w h = asleep-Free (opened t ts) w h
  Consistent-take_over (framed t ts) w h = asleep-Free (framed t ts) w h
  Consistent-take_over (running t ts) w h = (
    record { at = refl; opens = h.opens ∙ sym open_of-first_drain; bars = h.bars },
    subst (λ c. Active c (running t ts)) (sym h.titled) (active_running ts),
  )
  Consistent-take_over (ended e t ts) w h = (
    record { at = refl; opens = h.opens ∙ sym open_of-first_drain; bars = h.bars },
    subst (λ c. Active c (ended e t ts)) (sym h.titled) (active_ended e ts),
  )
  Consistent-take_over (draining e t ts d) w h = asleep-Free (draining e t ts d) w h
  Consistent-take_over (reporting f ts) w h = (ground arith, parked_reporting f ts)
  Consistent-take_over (returned r) w h = (ground arith, parked_returned r)

  Emptied-take_over : (st : TaskState) (w : Shared) → Emptied w → Emptied (take_over tty st w).1
  unfolding take_over
  Emptied-take_over task_starting w h = h
  Emptied-take_over task_draining w h = h
  Emptied-take_over task_running w h = h
  Emptied-take_over task_closed w h = h
  Emptied-take_over task_interrupted w h = h

  Free-take_over :
      (o : Owner) (w v : Shared)
      → Free o true v
      → w.state ≡ state_of o
      → Consistent o (take_over tty w.state v).0 (take_over tty w.state v).1
  Free-take_over o w v h q =
      subst (λ st. Consistent o (take_over tty st v).0 (take_over tty st v).1) (sym q)
        (Consistent-take_over o v h)

  Consistent-wake :
      (o : Owner) (b : Bool) (w : Shared)
      → Free o true w
      → Consistent o (wake tty b w).0 (wake tty b w).1
  unfolding wake
  Consistent-wake o true w h = Free-take_over o w w h h.at
  Consistent-wake o false w h = h

  Emptied-wake : (b : Bool) (w : Shared) → Emptied w → Emptied (wake tty b w).1
  unfolding wake
  Emptied-wake true w h = Emptied-take_over w.state w h
  Emptied-wake false w h = h

  pub Consistent-watcher_step :
      (o : Owner) (wt : Watcher) (w : Shared)
      → Consistent o wt w
      → Consistent o (watcher_step tty wt w).0 (watcher_step tty wt w).1
  unfolding watcher_step
  Consistent-watcher_step o waiting w h = h
  Consistent-watcher_step o blocked w h = Consistent-wake o w.woken w h
  Consistent-watcher_step o (interrupting t d) w (h, a) =
      let (d', w') = drain (line_interrupted t) d w in
      Taken-die_after t o d' w' (Taken-drain d (line_interrupted t) w h) a
  Consistent-watcher_step o (dying t) w h = h
  Consistent-watcher_step o (died t) w h = h
  Consistent-watcher_step o (killed was) w h = h
  Consistent-watcher_step o gone w h = h

  pub Emptied-watcher_step :
      (wt : Watcher) (w : Shared) → Emptied w → Emptied (watcher_step tty wt w).1
  unfolding watcher_step
  Emptied-watcher_step waiting w h = h
  Emptied-watcher_step blocked w h = Emptied-wake w.woken w h
  Emptied-watcher_step (interrupting t d) w h =
      let (d', w') = drain (line_interrupted t) d w in
      Emptied-die_after t d' w' (Emptied-drain d (line_interrupted t) w h)
  Emptied-watcher_step (dying t) w h = h
  Emptied-watcher_step (died t) w h = h
  Emptied-watcher_step (killed was) w h = h
  Emptied-watcher_step gone w h = h

  pub Consistent-catch_signal :
      (o : Owner) (wt : Watcher) (w : Shared)
      → Consistent o wt w
      → Consistent o (catch_signal tty wt w).0 (catch_signal tty wt w).1
  unfolding catch_signal
  Consistent-catch_signal o waiting w h =
      Free-take_over o w (record w { pending = true })
        (record { at = h.at; opens = h.opens; bars = refl; titled = h.titled }) h.at
  Consistent-catch_signal o blocked w h = h
  Consistent-catch_signal o (interrupting t d) w h = h
  Consistent-catch_signal o (dying t) w h = h
  Consistent-catch_signal o (died t) w h = h
  Consistent-catch_signal o (killed was) w h = h
  Consistent-catch_signal o gone w h = h

  pub Emptied-catch_signal :
      (wt : Watcher) (w : Shared) → Emptied w → Emptied (catch_signal tty wt w).1
  unfolding catch_signal
  Emptied-catch_signal waiting w h = Emptied-take_over w.state (record w { pending = true }) h
  Emptied-catch_signal blocked w h = h
  Emptied-catch_signal (interrupting t d) w h = h
  Emptied-catch_signal (dying t) w h = h
  Emptied-catch_signal (died t) w h = h
  Emptied-catch_signal (killed was) w h = h
  Emptied-catch_signal gone w h = h
