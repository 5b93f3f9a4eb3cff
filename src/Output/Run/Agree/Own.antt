-- ===== src/Output/Run/Agree/Own.antt =====
-- The owner's steps, and the agreement of the goroutines.
use workspace_cli.Output.Run.{
  Drain, Ending, Env, Line, LogMade, Owner, Shared, after, announced, claimed, drain, drain_done,
  draining, ended, ended_err, ended_ok, ended_panic, ending_state, erase_due, framed, halted,
  line_result, log_kept, log_none, log_null, logged, make_log, next, opened, reporting,
  reporting_none, result_due, returned, run_failed, run_ok, running, settle_task, settle_after,
  take_batch, taking, task_interrupted, warned, write_line, writing, claim, claimable,
  task_starting,
}
use workspace_cli.Output.Run.Agree.{
  Active, Emptied, Free, Parked, Taken, active_ended, active_halted, active_running, parked_active,
  parked_halted, parked_logged, parked_next, parked_none, parked_reporting, parked_returned,
}
use workspace_cli.Output.Run.Moves.{owner_step}
use workspace_cli.Prelude.{
  [], Bool, List, Option, String, arith, false, none, refl, some, subst, sym, true, ℕ, ◌∷◌, ◌≡◌, ap,
  if◌then◌else◌,
}

Free-make_log :
    (l : LogMade) {p : Bool} (t : String) (ts : List String) (w : Shared)
    → Free (next (t ∷ ts)) p w
    → Free (make_log l t ts) p w
unfolding make_log
Free-make_log log_kept t ts w h = ground arith
Free-make_log log_null t ts w h = ground arith
Free-make_log log_none t ts w h = ground arith

Free-after :
    (e : Ending) {p : Bool} (t : String) (ts : List String) (w : Shared)
    → w.gate ≡ false
    → w.pending ≡ p
    → Free (after e t ts) p (settle_task w)
unfolding after settle_task
Free-after ended_ok t ts w g b = ground arith
Free-after ended_err t ts w g b = ground arith
Free-after ended_panic t ts w g b = ground arith

Free-take_batch :
    (q : List ℕ) (e : Ending) {p : Bool} (t : String) (ts : List String) (w : Shared)
    → Free (draining e t ts taking) p w
    → Free (settle_after e t ts (take_batch q w)).0 p (settle_after e t ts (take_batch q w)).1
unfolding take_batch settle_after
Free-take_batch [] e t ts w h = Free-after e t ts (record w { gate = false }) refl h.bars
Free-take_batch (m ∷ q) e t ts w h = ground arith

Free-drain :
    (d : Drain) (l : Line) (e : Ending) {p : Bool} (t : String) (ts : List String) (w : Shared)
    → Free (draining e t ts d) p w
    → Free (settle_after e t ts (drain l d w)).0 p (settle_after e t ts (drain l d w)).1
unfolding drain settle_after write_line
Free-drain erase_due l e t ts w h = ground arith
Free-drain result_due l e t ts w h = ground arith
Free-drain taking l e t ts w h = Free-take_batch w.queue e t ts w h
Free-drain drain_done l e t ts w h = Free-after e t ts w h.opens h.bars
Free-drain (writing []) l e t ts w h = ground arith
Free-drain (writing (m ∷ ms)) l e t ts w h = ground arith

claim-interrupted : (w : Shared) → w.state ≡ task_interrupted → claim w ≡ (false, w)
unfolding claim
claim-interrupted w h =
    ap
      (λ st.
        if claimable st w.pending then (true, record w { state = task_starting }) else (false, w))
      h

Emptied-take_batch : (q : List ℕ) (w : Shared) → w.queue ≡ q → Emptied (take_batch q w).1
unfolding take_batch
Emptied-take_batch [] w e = λ g. e
Emptied-take_batch (m ∷ q) w e = λ g. refl

pub Emptied-drain : (d : Drain) (l : Line) (w : Shared) → Emptied w → Emptied (drain l d w).1
unfolding drain write_line
Emptied-drain erase_due l w h = h
Emptied-drain result_due l w h = h
Emptied-drain taking l w h = Emptied-take_batch w.queue w refl
Emptied-drain drain_done l w h = h
Emptied-drain (writing []) l w h = h
Emptied-drain (writing (m ∷ ms)) l w h = h

module _ (tty : Bool) (env : Env) where
  pub Free-owner_step :
      (o : Owner) {p : Bool} (w : Shared)
      → Free o p w
      → Free (owner_step tty env o w).0 p (owner_step tty env o w).1
  unfolding owner_step
  Free-owner_step (next []) w h = ground arith
  Free-owner_step (next (t ∷ ts)) w h = Free-make_log env.log t ts w h
  Free-owner_step (logged kept t ts) w h = ground arith
  Free-owner_step (claimed kept t ts) w h = ground arith
  Free-owner_step (warned t ts) w h = ground arith
  Free-owner_step (announced t ts) w h = ground arith
  Free-owner_step (opened t ts) w h = ground arith
  Free-owner_step (framed t ts) w h = ground arith
  Free-owner_step (running t ts) w h = ground arith
  Free-owner_step (ended e t ts) w h = ground arith
  Free-owner_step (draining e t ts d) w h = Free-drain d (line_result (ending_state e) t) e t ts w h
  Free-owner_step (reporting f []) w h = ground arith
  Free-owner_step (reporting f (t ∷ ts)) w h = ground arith
  Free-owner_step (reporting_none []) w h = ground arith
  Free-owner_step (reporting_none (t ∷ ts)) w h = ground arith
  Free-owner_step (halted ts) w h = record {
    at = h.at;
    opens = h.opens;
    bars = h.bars;
    titled = h.titled;
  }
  Free-owner_step (returned o) w h = h

  pub Active-owner_step :
      {t : String} {o : Owner}
      → Active t o
      → (w : Shared) → w.state ≡ task_interrupted
      → Active t (owner_step tty env o w).0 × ((owner_step tty env o w).1 ≡ w)
  unfolding owner_step
  Active-owner_step (active_running ts) w h = (active_ended env.ending ts, refl)
  Active-owner_step (active_ended e ts) w h = rw h (active_halted ts, refl)
  Active-owner_step (active_halted ts) w h = (active_halted ts, refl)

  Parked-make_log : (l : LogMade) (t : String) (ts : List String) → Parked none (make_log l t ts)
  unfolding make_log
  Parked-make_log log_kept t ts = parked_logged true t ts
  Parked-make_log log_null t ts = parked_logged false t ts
  Parked-make_log log_none t ts = parked_none (t ∷ ts)

  pub Parked-owner_step :
      {was : Option String} {o : Owner}
      → Parked was o
      → (w : Shared) → Taken false w
      → Parked was (owner_step tty env o w).0 × Taken false (owner_step tty env o w).1
  unfolding owner_step make_log
  Parked-owner_step (parked_next []) w h = (parked_returned run_ok, h)
  Parked-owner_step (parked_next (t ∷ ts)) w h = (Parked-make_log env.log t ts, h)
  Parked-owner_step (parked_none []) w h = (parked_returned (run_failed none), h)
  Parked-owner_step (parked_none (t ∷ ts)) w h = (parked_none ts, ground arith)
  Parked-owner_step (parked_logged k t ts) w h =
      simp (claim-interrupted w h.at) (parked_halted t ts, h)
  Parked-owner_step (parked_reporting f []) w h = (parked_returned (run_failed (some f)), h)
  Parked-owner_step (parked_reporting f (t ∷ ts)) w h = (parked_reporting f ts, ground arith)
  Parked-owner_step (parked_returned o) w h = (parked_returned o, h)
  Parked-owner_step (parked_halted t ts) w h = (parked_halted t ts, h)
  Parked-owner_step (parked_active a) w h =
      let (b, q) = Active-owner_step a w h.at in (parked_active b, subst (Taken false) (sym q) h)

  Emptied-settle_after :
      (e : Ending) (t : String) (ts : List String) (d : Drain) (w : Shared)
      → Emptied w
      → Emptied (settle_after e t ts (d, w)).1
  unfolding settle_after settle_task
  Emptied-settle_after e t ts erase_due w h = h
  Emptied-settle_after e t ts result_due w h = h
  Emptied-settle_after e t ts taking w h = h
  Emptied-settle_after e t ts (writing ms) w h = h
  Emptied-settle_after e t ts drain_done w h = h

  pub Emptied-owner_step : (o : Owner) (w : Shared) → Emptied w → Emptied (owner_step tty env o w).1
  unfolding owner_step
  Emptied-owner_step (next []) w h = h
  Emptied-owner_step (next (t ∷ ts)) w h = h
  Emptied-owner_step (logged kept t ts) w h = ground arith
  Emptied-owner_step (claimed kept t ts) w h = ground arith
  Emptied-owner_step (warned t ts) w h = ground arith
  Emptied-owner_step (announced t ts) w h = λ g. cc
  Emptied-owner_step (opened t ts) w h = ground arith
  Emptied-owner_step (framed t ts) w h = ground arith
  Emptied-owner_step (running t ts) w h = h
  Emptied-owner_step (ended e t ts) w h = ground arith
  Emptied-owner_step (draining e t ts d) w h =
      let (d', w') = drain (line_result (ending_state e) t) d w in
      Emptied-settle_after e t ts d' w' (Emptied-drain d (line_result (ending_state e) t) w h)
  Emptied-owner_step (reporting f []) w h = h
  Emptied-owner_step (reporting f (t ∷ ts)) w h = ground arith
  Emptied-owner_step (reporting_none []) w h = h
  Emptied-owner_step (reporting_none (t ∷ ts)) w h = ground arith
  Emptied-owner_step (halted ts) w h = h
  Emptied-owner_step (returned o) w h = h
