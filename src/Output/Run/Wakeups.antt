-- ===== src/Output/Run/Wakeups.antt =====
-- The watcher's wait on the condition variable, and the broadcasts.
pub mod Reached
use workspace_cli.Output.Run.{
  Drain, Ending, Env, Line, Owner, Shared, TaskState, Watcher, announced, blocked, claim,
  claim_task, claimable, claimed, die_after, died, drain, drain_done, draining, dying, ended,
  ending_state, erase_due, framed, gone, halted, interrupting, killed, leave, leave_from,
  leave_task, line_interrupted, line_result, logged, next, opened, publish, report_loss, reporting,
  reporting_none, result_due, returned, running, settle_after, settle_task, take_batch, taking,
  task_closed, task_draining, task_interrupted, task_running, task_starting, waiting, warned,
  write_line, writing,
}
use workspace_cli.Output.Run.Moves.{
  announce, catch_signal, draw_frame, first_drain, owner_step, take_over, wake, watcher_step,
}
use workspace_cli.Prelude.{
  Bool, List, String, [], false, if_intro, inl, inr, refl, subst, sym, true, ℕ, ◌||◌, ◌∙◌, ◌∷◌, ◌≡◌,
  ◌⊎◌,
}

-- interrupt waits while the state is one of these.
abbrev pub Waits : TaskState → Type 0
Waits task_starting = Unit
Waits task_draining = Unit
Waits task_closed = ⊥
Waits task_running = ⊥
Waits task_interrupted = ⊥

-- The watcher has been woken, or still has to wait.
abbrev pub NoLostWakeup : Shared → Type 0
NoLostWakeup w = (w.woken ≡ true) ⊎ Waits w.state

abbrev pub WokenIn : Watcher → Shared → Type 0
WokenIn blocked w = NoLostWakeup w
WokenIn wt w = Unit

-- The same state and broadcasts.
abbrev pub SameWait : Shared → Shared → Type 0
SameWait w v = (v.state ≡ w.state) × (v.woken ≡ w.woken)

pub moved : (w v : Shared) → SameWait w v → NoLostWakeup w → NoLostWakeup v
moved w v (p, q) (inl h) = inl (q ∙ h)
moved w v (p, q) (inr h) = inr (subst Waits (sym p) h)

claim_task-NoLostWakeup :
    (k : Bool) (t : String) (ts : List String) (r : Bool × Shared)
    → NoLostWakeup r.1
    → NoLostWakeup (claim_task k t ts r).1
unfolding claim_task
claim_task-NoLostWakeup k t ts (true, w) h = h
claim_task-NoLostWakeup k t ts (false, w) h = h

leave_task-NoLostWakeup :
    (d : Drain) (e : Ending) (t : String) (ts : List String) (r : Bool × Shared)
    → NoLostWakeup r.1
    → NoLostWakeup (leave_task d e t ts r).1
unfolding leave_task
leave_task-NoLostWakeup d e t ts (true, w) h = h
leave_task-NoLostWakeup d e t ts (false, w) h = h

claim-NoLostWakeup : (w : Shared) → NoLostWakeup w → NoLostWakeup (claim w).1
unfolding claim
claim-NoLostWakeup w h =
    if_intro (λ (r : Bool × Shared). NoLostWakeup r.1) (claimable w.state w.pending) _ _
      (λ _. inr tt) (λ _. h)

leave_from-NoLostWakeup :
    (st : TaskState) (w : Shared) → NoLostWakeup w → NoLostWakeup (leave_from st w).1
unfolding leave_from
leave_from-NoLostWakeup task_interrupted w h = h
leave_from-NoLostWakeup task_closed w h = inr tt
leave_from-NoLostWakeup task_starting w h = inr tt
leave_from-NoLostWakeup task_running w h = inr tt
leave_from-NoLostWakeup task_draining w h = inr tt

leave-NoLostWakeup : (w : Shared) → NoLostWakeup w → NoLostWakeup (leave w).1
unfolding leave
leave-NoLostWakeup w h = leave_from-NoLostWakeup w.state w h

take_batch-SameWait : (q : List ℕ) (w : Shared) → SameWait w (take_batch q w).1
unfolding take_batch
take_batch-SameWait [] w = (refl, refl)
take_batch-SameWait (m ∷ q) w = (refl, refl)

drain-SameWait : (l : Line) (d : Drain) (w : Shared) → SameWait w (drain l d w).1
unfolding drain write_line
drain-SameWait l erase_due w = (refl, refl)
drain-SameWait l result_due w = (refl, refl)
drain-SameWait l taking w = take_batch-SameWait w.queue w
drain-SameWait l (writing []) w = (refl, refl)
drain-SameWait l (writing (m ∷ ms)) w = (refl, refl)
drain-SameWait l drain_done w = (refl, refl)

-- The end of the owner's drain broadcasts.
settle_after-NoLostWakeup :
    (e : Ending) (t : String) (ts : List String) (d : Drain) (w : Shared)
    → NoLostWakeup w
    → NoLostWakeup (settle_after e t ts (d, w)).1
unfolding settle_after settle_task
settle_after-NoLostWakeup e t ts drain_done w h = inl refl
settle_after-NoLostWakeup e t ts erase_due w h = h
settle_after-NoLostWakeup e t ts result_due w h = h
settle_after-NoLostWakeup e t ts taking w h = h
settle_after-NoLostWakeup e t ts (writing ms) w h = h

module _ (tty : Bool) where
  report_loss-SameWait : (k : Bool) (w : Shared) → SameWait w (report_loss k w)
  unfolding report_loss write_line
  report_loss-SameWait k w =
      if_intro (λ (v : Shared). SameWait w v) (k || w.lost) _ _ (λ _. (refl, refl))
        (λ _. (refl, refl))

  announce-SameWait : (t : String) (w : Shared) → SameWait w (announce tty t w)
  unfolding announce write_line
  announce-SameWait t w =
      if_intro (λ (v : Shared). SameWait w v) tty _ _ (λ _. (refl, refl)) (λ _. (refl, refl))

  draw_frame-SameWait : (w : Shared) → SameWait w (draw_frame tty w)
  unfolding draw_frame write_line
  draw_frame-SameWait w =
      if_intro (λ (v : Shared). SameWait w v) tty _ _ (λ _. (refl, refl)) (λ _. (refl, refl))

  owner_step-NoLostWakeup :
      (env : Env) (o : Owner) (w : Shared)
      → NoLostWakeup w
      → NoLostWakeup (owner_step tty env o w).1
  unfolding owner_step publish write_line
  owner_step-NoLostWakeup env (next []) w h = h
  owner_step-NoLostWakeup env (next (t ∷ ts)) w h = h
  owner_step-NoLostWakeup env (logged k t ts) w h =
      claim_task-NoLostWakeup k t ts (claim w) (claim-NoLostWakeup w h)
  owner_step-NoLostWakeup env (claimed k t ts) w h =
      moved w (report_loss k w) (report_loss-SameWait k w) h
  owner_step-NoLostWakeup env (warned t ts) w h =
      moved w (announce tty t w) (announce-SameWait t w) h
  owner_step-NoLostWakeup env (announced t ts) w h = h
  owner_step-NoLostWakeup env (opened t ts) w h =
      moved w (draw_frame tty w) (draw_frame-SameWait w) h
  owner_step-NoLostWakeup env (framed t ts) w h = inl refl
  owner_step-NoLostWakeup env (running t ts) w h = h
  owner_step-NoLostWakeup env (ended e t ts) w h =
      leave_task-NoLostWakeup (first_drain tty) e t ts (leave w) (leave-NoLostWakeup w h)
  owner_step-NoLostWakeup env (draining e t ts d) w h =
      let l = line_result (ending_state e) t in
      settle_after-NoLostWakeup e t ts (drain l d w).0 (drain l d w).1
        (moved w (drain l d w).1 (drain-SameWait l d w) h)
  owner_step-NoLostWakeup env (reporting f []) w h = h
  owner_step-NoLostWakeup env (reporting f (t ∷ ts)) w h = h
  owner_step-NoLostWakeup env (reporting_none []) w h = h
  owner_step-NoLostWakeup env (reporting_none (t ∷ ts)) w h = h
  owner_step-NoLostWakeup env (halted ts) w h = h
  owner_step-NoLostWakeup env (returned o) w h = h

  pub owner_step-WokenIn :
      (env : Env) (o : Owner) (wt : Watcher) (w : Shared)
      → WokenIn wt w
      → WokenIn wt (owner_step tty env o w).1
  owner_step-WokenIn env o blocked w h = owner_step-NoLostWakeup env o w h
  owner_step-WokenIn env o waiting w h = tt
  owner_step-WokenIn env o gone w h = tt
  owner_step-WokenIn env o (killed was) w h = tt
  owner_step-WokenIn env o (interrupting t d) w h = tt
  owner_step-WokenIn env o (dying was) w h = tt
  owner_step-WokenIn env o (died was) w h = tt

  -- The watcher goes to sleep only where it has to wait.
  take_over-WokenIn :
      (st : TaskState) (w : Shared)
      → w.state ≡ st
      → WokenIn (take_over tty st w).0 (take_over tty st w).1
  unfolding take_over
  take_over-WokenIn task_starting w q = inr (subst Waits (sym q) tt)
  take_over-WokenIn task_draining w q = inr (subst Waits (sym q) tt)
  take_over-WokenIn task_running w q = tt
  take_over-WokenIn task_closed w q = tt
  take_over-WokenIn task_interrupted w q = tt

  wake-WokenIn :
      (b : Bool) (w : Shared) → NoLostWakeup w → WokenIn (wake tty b w).0 (wake tty b w).1
  unfolding wake
  wake-WokenIn true w h = take_over-WokenIn w.state w refl
  wake-WokenIn false w h = h

  die_after-WokenIn :
      (t : String) (d : Drain) (w : Shared) → WokenIn (die_after t (d, w)).0 (die_after t (d, w)).1
  unfolding die_after
  die_after-WokenIn t drain_done w = tt
  die_after-WokenIn t erase_due w = tt
  die_after-WokenIn t result_due w = tt
  die_after-WokenIn t taking w = tt
  die_after-WokenIn t (writing ms) w = tt

  pub watcher_step-WokenIn :
      (wt : Watcher) (w : Shared)
      → WokenIn wt w
      → WokenIn (watcher_step tty wt w).0 (watcher_step tty wt w).1
  unfolding watcher_step
  watcher_step-WokenIn waiting w h = tt
  watcher_step-WokenIn blocked w h = wake-WokenIn w.woken w h
  watcher_step-WokenIn (interrupting t d) w h =
      let l = line_interrupted t in die_after-WokenIn t (drain l d w).0 (drain l d w).1
  watcher_step-WokenIn (dying t) w h = tt
  watcher_step-WokenIn (died t) w h = tt
  watcher_step-WokenIn (killed was) w h = tt
  watcher_step-WokenIn gone w h = tt

  pub catch_signal-WokenIn :
      (wt : Watcher) (w : Shared)
      → WokenIn wt w
      → WokenIn (catch_signal tty wt w).0 (catch_signal tty wt w).1
  unfolding catch_signal
  catch_signal-WokenIn waiting w h = take_over-WokenIn w.state (record w { pending = true }) refl
  catch_signal-WokenIn blocked w h = h
  catch_signal-WokenIn (interrupting t d) w h = tt
  catch_signal-WokenIn (dying t) w h = tt
  catch_signal-WokenIn (died t) w h = tt
  catch_signal-WokenIn (killed was) w h = tt
  catch_signal-WokenIn gone w h = tt
