-- ===== src/Output/Run/Bound.antt =====
-- How many steps the watcher, and an owner whose task need not end, can take once a signal is caught.
use workspace_cli.Output.Run.{
  Drain, Ending, Env, LogMade, Owner, Shared, TaskState, Watcher, after, announced, blocked, claim,
  claim_task, claimed, die_after, died, drain, drain_done, draining, dying, ended, ended_err,
  ended_ok, ended_panic, ending_state, erase_due, framed, gone, halted, interrupting, killed, leave,
  leave_from, leave_task, line_result, log_kept, log_none, log_null, logged, make_log, next, opened,
  publish, report_loss, reporting, reporting_none, result_due, returned, running, settle_after,
  settle_task, take_batch, taking, task_closed, task_draining, task_interrupted, task_running,
  task_starting, waiting, warned, write_line, writing, Line, claimable,
}
use workspace_cli.Output.Run.Moves.{
  announce, draw_frame, first_drain, owner_step, take_over, wake, watcher_step,
}
use workspace_cli.Prelude.{
  [], ap, Bool, List, String, arith, false, if_intro, length, refl, subst, true, ℕ, ◌+◌, ◌*◌, ◌<◌,
  ◌≤◌, ◌∷◌, ◌≡◌, suc, sym, ◌||◌,
}

-- The owner acts for itself: its task need not end, and it does not wait for the process's death.
abbrev pub Acts : Owner → Type 0
Acts (running t ts) = ⊥
Acts (halted ts) = ⊥
Acts (returned o) = ⊥
Acts (next ts) = Unit
Acts (reporting_none ts) = Unit
Acts (logged kept t ts) = Unit
Acts (claimed kept t ts) = Unit
Acts (warned t ts) = Unit
Acts (announced t ts) = Unit
Acts (opened t ts) = Unit
Acts (framed t ts) = Unit
Acts (ended e t ts) = Unit
Acts (draining e t ts d) = Unit
Acts (reporting f ts) = Unit

-- The watcher has a step: it drains or dies, or a broadcast has woken it.
abbrev pub Awake : Watcher → Bool → Type 0
Awake blocked woken = woken ≡ true
Awake (interrupting t d) woken = Unit
Awake (dying was) woken = Unit
Awake (died was) woken = ⊥
Awake (killed was) woken = ⊥
Awake waiting woken = ⊥
Awake gone woken = ⊥

abbrev pub drain_left : Drain → ℕ
drain_left erase_due = 3
drain_left result_due = 2
drain_left taking = 1
drain_left (writing ms) = 2 + length ms
drain_left drain_done = 0

abbrev pub owner_left : Owner → ℕ
owner_left (running t ts) = 0
owner_left (halted ts) = 0
owner_left (returned o) = 0
owner_left (framed t ts) = 2
owner_left (opened t ts) = 3
owner_left (announced t ts) = 4
owner_left (warned t ts) = 5
owner_left (claimed kept t ts) = 6
owner_left (logged kept t ts) = 7
owner_left (next ts) = 9 + length ts
owner_left (reporting f ts) = 1 + length ts
owner_left (reporting_none ts) = 1 + length ts
owner_left (draining e t ts d) = 12 + length ts + drain_left d
owner_left (ended e t ts) = 16 + length ts

abbrev pub watcher_left : Watcher → ℕ
watcher_left blocked = 7
watcher_left (interrupting t d) = 2 + drain_left d
watcher_left (dying was) = 1
watcher_left (died was) = 0
watcher_left (killed was) = 0
watcher_left waiting = 0
watcher_left gone = 0

abbrev flag : Bool → ℕ
flag true = 1
flag false = 0

-- A queued message may be taken and written; a broadcast may wake the watcher once.
abbrev pub shared_left : Shared → ℕ
shared_left w = 3 * length w.queue + flag w.woken

-- What a step leaves of the watcher's or owner's part and the shared part is less.
abbrev pub OwnerLess : ℕ → Owner × Shared → Type 0
OwnerLess n r = owner_left r.0 + shared_left r.1 < n

abbrev pub WatcherLess : ℕ → Watcher × Shared → Type 0
WatcherLess n r = watcher_left r.0 + shared_left r.1 < n

flag-le : (b : Bool) → flag b ≤ 1
flag-le true = omega arith
flag-le false = omega arith

after-le : (e : Ending) (t : String) (ts : List String) → owner_left (after e t ts) ≤ 9 + length ts
unfolding after
after-le ended_ok t ts = omega arith
after-le ended_err t ts = omega arith
after-le ended_panic t ts = omega arith

settle-OwnerLess :
    (e : Ending) (t : String) (ts : List String) (n : ℕ) (w : Shared)
    → 11 + length ts + 3 * length w.queue ≤ n
    → OwnerLess (suc n) (after e t ts, settle_task w)
unfolding settle_task
settle-OwnerLess e t ts n w h = omega (arith, after-le e t ts)

take_batch-OwnerLess :
    (e : Ending) (t : String) (ts : List String) (q : List ℕ) (w : Shared)
    → w.queue ≡ q
    → OwnerLess (13 + length ts + shared_left w) (settle_after e t ts (take_batch q w))
unfolding take_batch settle_after settle_task
take_batch-OwnerLess e t ts [] w p = omega (arith, after-le e t ts)
take_batch-OwnerLess e t ts (m ∷ q) w p =
    subst
      (λ x.
        owner_left (draining e t ts (writing (m ∷ q))) + shared_left (record w { queue = [] })
        < 13 + length ts + (3 * length x + flag w.woken))
      (sym p) (omega arith)

draining-OwnerLess :
    (l : Line) (e : Ending) (t : String) (ts : List String) (d : Drain) (w : Shared)
    → OwnerLess (owner_left (draining e t ts d) + shared_left w) (settle_after e t ts (drain l d w))
unfolding drain settle_after settle_task write_line
draining-OwnerLess l e t ts erase_due w = omega arith
draining-OwnerLess l e t ts result_due w = omega arith
draining-OwnerLess l e t ts taking w = less (take_batch-OwnerLess e t ts w.queue w refl)
  where
    less :
        OwnerLess (13 + length ts + shared_left w) (settle_after e t ts (take_batch w.queue w))
        → OwnerLess
            (owner_left (draining e t ts taking) + shared_left w)
            (settle_after e t ts (take_batch w.queue w))
    less h = omega arith
draining-OwnerLess l e t ts (writing []) w = omega arith
draining-OwnerLess l e t ts (writing (m ∷ ms)) w = omega arith
draining-OwnerLess l e t ts drain_done w = omega (arith, after-le e t ts)

drain-le : (tty : Bool) → drain_left (first_drain tty) ≤ 3
unfolding first_drain
drain-le true = omega arith
drain-le false = omega arith

module _ (tty : Bool) where
  same_left :
      (o : Owner) (n : ℕ) (w v : Shared)
      → (v.queue ≡ w.queue)
      → (v.woken ≡ w.woken)
      → owner_left o < n
      → OwnerLess (n + shared_left w) (o, v)
  same_left o n w v p q h =
      let a : length v.queue ≡ length w.queue = ap length p in
      let b : flag v.woken ≡ flag w.woken = ap flag q in omega arith

  -- A step of an owner that acts for itself.
  pub owner_step-OwnerLess :
      (env : Env) (o : Owner) (w : Shared)
      → Acts o
      → OwnerLess (owner_left o + shared_left w) (owner_step tty env o w)
  unfolding owner_step make_log claim_task claim report_loss announce draw_frame publish leave_task
      leave write_line leave_from
  owner_step-OwnerLess env (next []) w a = omega arith
  owner_step-OwnerLess env (next (t ∷ ts)) w a = made env.log
    where
      made : (k : LogMade) → OwnerLess (9 + suc (length ts) + shared_left w) (make_log k t ts, w)
      made log_kept = omega arith
      made log_null = omega arith
      made log_none = omega arith
  owner_step-OwnerLess env (logged kept t ts) w a =
      if_intro (λ (r : Bool × Shared). OwnerLess (7 + shared_left w) (claim_task kept t ts r))
        (claimable w.state w.pending) _ _ (λ _. omega arith) (λ _. omega arith)
  owner_step-OwnerLess env (claimed kept t ts) w a =
      if_intro (λ (v : Shared). OwnerLess (6 + shared_left w) (warned t ts, v)) (kept || w.lost) _ _
        (λ _. omega arith) (λ _. omega arith)
  owner_step-OwnerLess env (warned t ts) w a =
      if_intro (λ (v : Shared). OwnerLess (5 + shared_left w) (announced t ts, v)) tty _ _
        (λ _. omega arith) (λ _. omega arith)
  owner_step-OwnerLess env (announced t ts) w a = omega arith
  owner_step-OwnerLess env (opened t ts) w a =
      if_intro (λ (v : Shared). OwnerLess (3 + shared_left w) (framed t ts, v)) tty _ _
        (λ _. omega arith) (λ _. omega arith)
  owner_step-OwnerLess env (framed t ts) w a = omega arith
  owner_step-OwnerLess env (running t ts) w a = absurd a
  owner_step-OwnerLess env (ended e t ts) w a = left w.state
    where
      left :
          (st : TaskState)
          → OwnerLess
              (16 + length ts + shared_left w)
              (leave_task (first_drain tty) e t ts (leave_from st w))
      left task_interrupted = omega arith
      left task_closed = omega (arith, drain-le tty)
      left task_starting = omega (arith, drain-le tty)
      left task_running = omega (arith, drain-le tty)
      left task_draining = omega (arith, drain-le tty)
  owner_step-OwnerLess env (draining e t ts d) w a =
      draining-OwnerLess (line_result (ending_state e) t) e t ts d w
  owner_step-OwnerLess env (reporting f []) w a = omega arith
  owner_step-OwnerLess env (reporting f (t ∷ ts)) w a = omega arith
  owner_step-OwnerLess env (reporting_none []) w a = omega arith
  owner_step-OwnerLess env (reporting_none (t ∷ ts)) w a = omega arith
  owner_step-OwnerLess env (halted ts) w a = absurd a
  owner_step-OwnerLess env (returned o) w a = absurd a

take_batch-WatcherLess :
    (t : String) (q : List ℕ) (w : Shared)
    → w.queue ≡ q
    → WatcherLess (3 + shared_left w) (die_after t (take_batch q w))
unfolding take_batch die_after
take_batch-WatcherLess t [] w p = omega arith
take_batch-WatcherLess t (m ∷ q) w p =
    subst
      (λ x.
        watcher_left (interrupting t (writing (m ∷ q))) + shared_left (record w { queue = [] })
        < 3 + (3 * length x + flag w.woken))
      (sym p) (omega arith)

module _ (tty : Bool) where
  take_over-WatcherLess :
      (st : TaskState) (w : Shared)
      → w.woken ≡ true
      → WatcherLess (7 + shared_left w) (take_over tty st w)
  unfolding take_over
  take_over-WatcherLess task_starting w k = omega (arith, ap flag k)
  take_over-WatcherLess task_draining w k = omega (arith, ap flag k)
  take_over-WatcherLess task_running w k = omega (arith, drain-le tty)
  take_over-WatcherLess task_closed w k = omega arith
  take_over-WatcherLess task_interrupted w k = omega arith

  -- A step of a watcher that is awake.
  pub watcher_step-WatcherLess :
      (wt : Watcher) (w : Shared)
      → Awake wt w.woken
      → WatcherLess (watcher_left wt + shared_left w) (watcher_step tty wt w)
  unfolding watcher_step wake die_after drain write_line
  watcher_step-WatcherLess waiting w a = absurd a
  watcher_step-WatcherLess gone w a = absurd a
  watcher_step-WatcherLess (killed was) w a = absurd a
  watcher_step-WatcherLess (died was) w a = absurd a
  watcher_step-WatcherLess (dying was) w a = omega arith
  watcher_step-WatcherLess blocked w a =
      subst (λ b. WatcherLess (7 + shared_left w) (wake tty b w)) (sym a)
        (take_over-WatcherLess w.state w a)
  watcher_step-WatcherLess (interrupting t erase_due) w a = omega arith
  watcher_step-WatcherLess (interrupting t result_due) w a = omega arith
  watcher_step-WatcherLess (interrupting t taking) w a = take_batch-WatcherLess t w.queue w refl
  watcher_step-WatcherLess (interrupting t (writing [])) w a = omega arith
  watcher_step-WatcherLess (interrupting t (writing (m ∷ ms))) w a = omega arith
  watcher_step-WatcherLess (interrupting t drain_done) w a = omega arith
