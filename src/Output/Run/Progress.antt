-- ===== src/Output/Run/Progress.antt =====
-- What is left to do once a signal has been caught.
use workspace_cli.Output.Run.{
  Drain, Env, Owner, Shared, TaskState, Watcher, blocked, die_after, died, drain_done, dying,
  ended_ok, erase_due, gone, interrupting, killed, log_kept, result_due, taking, task_closed,
  task_draining, task_interrupted, task_running, task_starting, waiting, writing, next,
  reporting_none, halted, logged, claimed, warned, announced, opened, framed, running, ended,
  draining, reporting, returned,
}
use workspace_cli.Output.Run.Agree.{Consistent, state_of}
use workspace_cli.Output.Run.Bound.{
  Acts, Awake, owner_left, owner_step-OwnerLess, shared_left, watcher_left,
  watcher_step-WatcherLess,
}
use workspace_cli.Output.Run.Moves.{
  Move, System, again, is_over, move, own, play, signal, speak, start, step, stop, take_over, tick,
  wake, watch, watcher_step,
}
use workspace_cli.Output.Run.Story.Played.{Reported, play-Reported, step-Reported}
use workspace_cli.Output.Run.Wakeups.{Waits}
use workspace_cli.Output.Run.Wakeups.Reached.{Woken, play-Woken, step-Woken}
use workspace_cli.Prelude.{
  Bool, List, Option, String, arith, false, if_false, inl, inr, refl, subst, suc, sym, true, zero,
  ℕ, ◌+◌, ◌<◌, ◌≡◌, ◌⊎◌,
}

-- Whose turn it may be: the watcher's when it is awake, the owner's when it acts for itself.
abbrev pub Turn : Move → System → Type 0
Turn (own env) s = Acts s.owner
Turn watch s = Awake s.watcher s.shared.woken
Turn signal s = ⊥
Turn again s = ⊥
Turn stop s = ⊥
Turn tick s = ⊥
Turn (speak m) s = ⊥

-- The process has died by its signal, or one of the two has a turn and every turn leads to the death.
pub data Dies (tty : Bool) : System → Type 0 where
  died_now : {s : System} (was : Option String) → s.watcher ≡ died was → Dies tty s
  goes_on :
      {s : System} (m : Move)
      → Turn m s
      → ((n : Move) → Turn n s → Dies tty (step tty n s))
      → Dies tty s

-- A signal has been caught, and no second one has ended the process.
abbrev pub Caught : Watcher → Type 0
Caught waiting = ⊥
Caught gone = ⊥
Caught (killed was) = ⊥
Caught blocked = Unit
Caught (interrupting t d) = Unit
Caught (dying was) = Unit
Caught (died was) = Unit

abbrev steps_left : System → ℕ
steps_left s = owner_left s.owner + watcher_left s.watcher + shared_left s.shared

module _ (tty : Bool) where
  step-less :
      (m : Move) (s : System)
      → Turn m s
      → is_over s.watcher ≡ false
      → steps_left (step tty m s) < steps_left s
  unfolding step move
  step-less m s u v =
      subst (λ x. steps_left x < steps_left s)
        (sym (if_false (is_over s.watcher) s (move tty m s) v)) (moved m u)
    where
      moved : (n : Move) → Turn n s → steps_left (move tty n s) < steps_left s
      moved (own env) u = omega (arith, owner_step-OwnerLess tty env s.owner s.shared u)
      moved watch u = omega (arith, watcher_step-WatcherLess tty s.watcher s.shared u)
      moved signal u = absurd u
      moved again u = absurd u
      moved stop u = absurd u
      moved tick u = absurd u
      moved (speak k) u = absurd u

  take_over-Caught : (st : TaskState) (w : Shared) → Caught (take_over tty st w).0
  unfolding take_over
  take_over-Caught task_starting w = tt
  take_over-Caught task_draining w = tt
  take_over-Caught task_running w = tt
  take_over-Caught task_closed w = tt
  take_over-Caught task_interrupted w = tt

  wake-Caught : (b : Bool) (w : Shared) → Caught (wake tty b w).0
  unfolding wake
  wake-Caught true w = take_over-Caught w.state w
  wake-Caught false w = tt

  die_after-Caught : (t : String) (r : Drain × Shared) → Caught (die_after t r).0
  unfolding die_after
  die_after-Caught t (erase_due, w) = tt
  die_after-Caught t (result_due, w) = tt
  die_after-Caught t (taking, w) = tt
  die_after-Caught t (writing ms, w) = tt
  die_after-Caught t (drain_done, w) = tt

  watcher_step-Caught : (wt : Watcher) (w : Shared) → Caught wt → Caught (watcher_step tty wt w).0
  unfolding watcher_step
  watcher_step-Caught waiting w h = absurd h
  watcher_step-Caught gone w h = absurd h
  watcher_step-Caught (killed was) w h = absurd h
  watcher_step-Caught (died was) w h = tt
  watcher_step-Caught (dying was) w h = tt
  watcher_step-Caught blocked w h = wake-Caught w.woken w
  watcher_step-Caught (interrupting t d) w h = die_after-Caught t _

  step-Caught :
      (m : Move) (s : System)
      → Turn m s
      → is_over s.watcher ≡ false
      → Caught s.watcher
      → Caught (step tty m s).watcher
  unfolding step move
  step-Caught m s u v h =
      subst (λ x. Caught x.watcher) (sym (if_false (is_over s.watcher) s (move tty m s) v))
        (moved m u)
    where
      moved : (n : Move) → Turn n s → Caught (move tty n s).watcher
      moved (own env) u = h
      moved watch u = watcher_step-Caught s.watcher s.shared h
      moved signal u = absurd u
      moved again u = absurd u
      moved stop u = absurd u
      moved tick u = absurd u
      moved (speak k) u = absurd u

quiet_env : Env
quiet_env = record { log = log_kept; ending = ended_ok }

-- Dead, or somebody's turn.
Lively : System → Type 0
Lively s =
    ((was : Option String) × (s.watcher ≡ died was))
    ⊎ ((is_over s.watcher ≡ false) × ((m : Move) × Turn m s))

-- While the watcher has to wait, the owner acts.
Waits-Acts : (o : Owner) → Waits (state_of o) → Acts o
Waits-Acts (next ts) h = tt
Waits-Acts (reporting_none ts) h = tt
Waits-Acts (halted ts) h = absurd h
Waits-Acts (logged k t ts) h = tt
Waits-Acts (claimed k t ts) h = tt
Waits-Acts (warned t ts) h = tt
Waits-Acts (announced t ts) h = tt
Waits-Acts (opened t ts) h = tt
Waits-Acts (framed t ts) h = tt
Waits-Acts (running t ts) h = absurd h
Waits-Acts (ended e t ts) h = tt
Waits-Acts (draining e t ts d) h = tt
Waits-Acts (reporting f ts) h = tt
Waits-Acts (returned r) h = absurd h

Caught-Lively :
    (o : Owner) (wt : Watcher) (w : Shared) (sp : List ℕ)
    → Consistent o wt w
    → Woken (record { owner = o; watcher = wt; shared = w; spoken = sp })
    → Caught wt
    → Lively (record { owner = o; watcher = wt; shared = w; spoken = sp })
unfolding Lively
Caught-Lively o waiting w sp c n h = absurd h
Caught-Lively o gone w sp c n h = absurd h
Caught-Lively o (killed was) w sp c n h = absurd h
Caught-Lively o (died was) w sp c n h = inl (was, refl)
Caught-Lively o (dying was) w sp c n h = inr (refl, (watch, tt))
Caught-Lively o (interrupting t d) w sp c n h = inr (refl, (watch, tt))
Caught-Lively o blocked w sp c (inl k) h = inr (refl, (watch, k))
Caught-Lively o blocked w sp c (inr x) h =
    inr (refl, (own quiet_env, Waits-Acts o (subst Waits c.at x)))

steps-Dies :
    (fuel : ℕ) (tty : Bool) (ts : List String) (s : System)
    → steps_left s < fuel
    → Reported tty ts s
    → Woken s
    → Caught s.watcher
    → Dies tty s
unfolding Lively
steps-Dies zero tty ts s b r n h = absurd (omega arith)
steps-Dies (suc fuel) tty ts s b r n h =
    elim (Caught-Lively s.owner s.watcher s.shared s.spoken r.agreed.0 n h) [
      | inl (was, e) ↦ died_now was e
      | inr (v, (m, u)) ↦ goes_on m u (λ k t.
          let less = step-less tty k s t v in
          steps-Dies fuel tty ts (step tty k s) (omega arith) (step-Reported tty k s r)
            (step-Woken tty k s n) (step-Caught tty k s t v h))
    ]

-- The watcher waits on a condition variable, and only a broadcast wakes it. From every point that some
-- interleaving reaches with a signal caught, and no second signal that ended the process, the watcher
-- and an owner that need not wait for its task's end can take their steps in any order: until the
-- process has died by the signal one of them has a step, and finitely many steps lead to its death.
pub play-Dies :
    (tty : Bool) (ms : List Move) (ts : List String)
    → Caught (play tty ms (start ts)).watcher
    → Dies tty (play tty ms (start ts))
play-Dies tty ms ts h =
    steps-Dies (suc (steps_left (play tty ms (start ts)))) tty ts (play tty ms (start ts))
      (omega arith) (play-Reported tty ms ts) (play-Woken tty ms ts) h
