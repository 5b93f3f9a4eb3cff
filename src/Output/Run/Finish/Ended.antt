-- ===== src/Output/Run/Finish/Ended.antt =====
-- What has been written when Run has returned, and when the process dies of a signal.
use mathlib.Core.List.{append-nil, map-append}
use mathlib.Core.Path.{ap₂}
use workspace_cli.Output.Run.{
  Line, Owner, RunOutcome, Shared, Watcher, died, gone, returned, run_failed, run_ok, run_panicked,
  announced, blocked, claimed, draining, dying, ended, framed, halted, interrupting, killed, logged,
  next, opened, reporting, reporting_none, running, waiting, warned,
}
use workspace_cli.Output.Run.Agree.{
  Consistent, Parked, active_ended, active_halted, active_running, parked_active, parked_halted,
  parked_logged, parked_next, parked_none, parked_reporting, parked_returned, done_returned,
}
use workspace_cli.Output.Run.Finish.{title_of}
use workspace_cli.Output.Run.Messages.{owner_batch, said_in}
use workspace_cli.Output.Run.Messages.Fifo.{held, Parked-batch}
use workspace_cli.Output.Run.Messages.Order.{InOrder, play-InOrder}
use workspace_cli.Output.Run.Moves.{System, Move, play, start}
use workspace_cli.Output.Run.Results.{
  begun, collect, drained_entry, finished, idle_of, owner_entry, result_of, start_of, watcher_entry,
}
use workspace_cli.Output.Run.Story.{Story, passed}
use workspace_cli.Output.Run.Story.Played.{play-Reported}
use workspace_cli.Output.State.{state_fail}
use workspace_cli.Prelude.{
  [], Bool, List, Option, String, ap, false, if_false, map, none, refl, some, sym, ◌++◌, ◌∙◌, ◌∷◌,
  ◌≡◌, false≢true, true,
}

title_passed : (ts : List String) → map title_of (passed ts) ≡ ts
title_passed [] = refl
title_passed (t ∷ ts) = ap (λ x. t ∷ x) (title_passed ts)

-- The current task has its entry.
Parked-titles :
    {was : Option String} {o : Owner}
    → Parked was o
    → begun o (died was) ≡ map title_of (owner_entry o ++ drained_entry was)
Parked-titles (parked_next ts) = refl
Parked-titles (parked_none ts) = refl
Parked-titles (parked_logged k t ts) = refl
Parked-titles (parked_reporting f ts) = refl
Parked-titles (parked_returned run_ok) = refl
Parked-titles (parked_returned (run_failed none)) = refl
Parked-titles (parked_returned (run_failed (some f))) = refl
Parked-titles (parked_returned (run_panicked t ts)) = refl
Parked-titles (parked_halted t ts) = refl
Parked-titles (parked_active (active_running ts)) = refl
Parked-titles (parked_active (active_ended e ts)) = refl
Parked-titles (parked_active (active_halted ts)) = refl

-- Every message has been written, in the order in which they were said; off a terminal, every task
-- that was started has its result line.
pub record IsComplete (tty : Bool) (s : System) : Type 0 where
  pub messages : s.spoken ≡ said_in s.shared.stream
  pub resulted :
      tty ≡ false
      → collect start_of s.shared.stream ≡ map title_of (collect result_of s.shared.stream)

starts_titled :
    (tty : Bool) (ts : List String) (o : Owner) (wt : Watcher) (ls : List Line)
    → Story tty ts o wt ls
    → begun o wt ≡ map title_of (owner_entry o ++ watcher_entry wt)
    → tty ≡ false
    → collect start_of ls ≡ map title_of (collect result_of ls)
starts_titled tty ts o wt ls h b q =
    h.starts
    ∙ if_false tty [] (h.passes ++ begun o wt) q
    ∙ ap₂ (λ x y. x ++ y) (sym (title_passed h.passes)) b
    ∙ sym (map-append title_of (passed h.passes) (owner_entry o ++ watcher_entry wt))
    ∙ ap (map title_of) (sym h.results)

written_all :
    (s : System)
    → InOrder s
    → held s.owner s.watcher ≡ []
    → s.shared.gate ≡ false
    → s.spoken ≡ said_in s.shared.stream
written_all s h n g =
    h.order
    ∙ ap₂ (λ x y. said_in s.shared.stream ++ (x ++ y)) n (h.agreed.1 g)
    ∙ append-nil (said_in s.shared.stream)

-- What Run's result says of the tasks and their lines.
abbrev pub Tells : List String → RunOutcome → List Line → Type 0
Tells ts run_ok ls = collect result_of ls ≡ passed ts
Tells ts (run_failed none) ls =
    (done : List String) × (ts ≡ done ++ collect idle_of ls) × (collect result_of ls ≡ passed done)
Tells ts (run_failed (some f)) ls =
    (done : List String) × (ts ≡ done ++ f ∷ collect idle_of ls)
    × (collect result_of ls ≡ passed done ++ finished state_fail f ∷ [])
Tells ts (run_panicked t rest) ls =
    (done : List String) × (ts ≡ done ++ t ∷ rest)
    × (collect result_of ls ≡ passed done ++ finished state_fail t ∷ [])

abbrev pub ToldBy : List String → Owner → List Line → Type 0
ToldBy ts (returned r) ls = Tells ts r ls
ToldBy ts (next us) ls = Unit
ToldBy ts (reporting_none us) ls = Unit
ToldBy ts (halted us) ls = Unit
ToldBy ts (logged k t us) ls = Unit
ToldBy ts (claimed k t us) ls = Unit
ToldBy ts (warned t us) ls = Unit
ToldBy ts (announced t us) ls = Unit
ToldBy ts (opened t us) ls = Unit
ToldBy ts (framed t us) ls = Unit
ToldBy ts (running t us) ls = Unit
ToldBy ts (ended e t us) ls = Unit
ToldBy ts (draining e t us d) ls = Unit
ToldBy ts (reporting f us) ls = Unit

Story-Tells :
    {tty : Bool} {ts : List String} (r : RunOutcome) (wt : Watcher) {ls : List Line}
    → watcher_entry wt ≡ []
    → Story tty ts (returned r) wt ls
    → Tells ts r ls
Story-Tells run_ok wt n h =
    h.results
    ∙ ap (λ x. passed h.passes ++ x) n
    ∙ append-nil (passed h.passes)
    ∙ ap passed (sym (h.tasks ∙ ap (λ x. h.passes ++ (x ++ [])) h.quiet ∙ append-nil h.passes))
Story-Tells (run_failed none) wt {ls} n h = (
  h.passes,
  h.tasks ∙ ap (λ x. h.passes ++ x) (append-nil (collect idle_of ls)),
  h.results ∙ ap (λ x. passed h.passes ++ x) n ∙ append-nil (passed h.passes),
)
Story-Tells (run_failed (some f)) wt {ls} n h = (
  h.passes,
  h.tasks ∙ ap (λ x. h.passes ++ f ∷ x) (append-nil (collect idle_of ls)),
  h.results ∙ ap (λ x. passed h.passes ++ finished state_fail f ∷ x) n,
)
Story-Tells (run_panicked t rest) wt {ls} n h = (
  h.passes,
  h.tasks ∙ ap (λ x. h.passes ++ t ∷ (x ++ rest)) h.quiet,
  h.results ∙ ap (λ x. passed h.passes ++ finished state_fail t ∷ x) n,
)

-- Run has returned, or its process has died of the signal that it caught.
abbrev pub is_finished : Watcher → Bool
is_finished gone = true
is_finished (died was) = true
is_finished waiting = false
is_finished blocked = false
is_finished (interrupting t d) = false
is_finished (dying was) = false
is_finished (killed was) = false

-- Where the runner has ended.
record Quiescent (ts : List String) (o : Owner) (wt : Watcher) (w : Shared) : Type 0 where
  idle : held o wt ≡ []
  closed : w.gate ≡ false
  titled : begun o wt ≡ map title_of (owner_entry o ++ watcher_entry wt)
  told : (tty : Bool) → Story tty ts o wt w.stream → ToldBy ts o w.stream

Parked-tells :
    {was : Option String} {o : Owner}
    → Parked was o
    → {tty : Bool} {ts : List String} {ls : List Line} → Story tty ts o (died was) ls
    → ToldBy ts o ls
Parked-tells (parked_next ts) h = tt
Parked-tells (parked_none ts) h = tt
Parked-tells (parked_logged k t ts) h = tt
Parked-tells (parked_reporting f ts) h = tt
Parked-tells (parked_returned r) h = Story-Tells r (died none) refl h
Parked-tells (parked_halted t ts) h = tt
Parked-tells (parked_active (active_running ts)) h = tt
Parked-tells (parked_active (active_ended e ts)) h = tt
Parked-tells (parked_active (active_halted ts)) h = tt

returned_titles :
    (r : RunOutcome) → begun (returned r) gone ≡ map title_of (owner_entry (returned r) ++ [])
returned_titles run_ok = refl
returned_titles (run_failed none) = refl
returned_titles (run_failed (some f)) = refl
returned_titles (run_panicked t ts) = refl

finished-Quiescent :
    (ts : List String) (o : Owner) (wt : Watcher) (w : Shared)
    → is_finished wt ≡ true
    → Consistent o wt w
    → Quiescent ts o wt w
finished-Quiescent ts o gone w q (c, done_returned r) = record {
  idle = refl;
  closed = c.opens;
  titled = returned_titles r;
  told = λ tty h. Story-Tells r gone refl h;
}
finished-Quiescent ts o (died was) w q (c, a) = record {
  idle = append-nil (owner_batch o) ∙ Parked-batch a;
  closed = c.opens;
  titled = Parked-titles a;
  told = λ tty h. Parked-tells a h;
}
finished-Quiescent ts o waiting w q c = absurd (false≢true q)
finished-Quiescent ts o blocked w q c = absurd (false≢true q)
finished-Quiescent ts o (interrupting t d) w q c = absurd (false≢true q)
finished-Quiescent ts o (dying was) w q c = absurd (false≢true q)
finished-Quiescent ts o (killed was) w q c = absurd (false≢true q)

-- When Run has returned, or its process has died of a signal after the drain, every message said has
-- been written, in order, and, off a terminal, the tasks with a start line are those with a result
-- line. If Run's work is done then, the lines tell its result: on success, an ok for every task; on
-- an error of a task, an ok for each task before it, its failure, and an idle line for each after it;
-- when a task has no log, an ok for each before it and idle lines from it on; on a panic, an ok for
-- each task before it, and its failure.
pub play-IsComplete :
    (tty : Bool) (ms : List Move) (ts : List String)
    → is_finished (play tty ms (start ts)).watcher ≡ true
    → IsComplete tty (play tty ms (start ts))
      × ToldBy ts (play tty ms (start ts)).owner (play tty ms (start ts)).shared.stream
play-IsComplete tty ms ts q =
    let s = play tty ms (start ts) in
    let h = play-InOrder tty ms ts in
    let r = play-Reported tty ms ts in
    let z = finished-Quiescent ts s.owner s.watcher s.shared q h.agreed.0 in
    (
      record {
        messages = written_all s h z.idle z.closed;
        resulted = starts_titled tty ts s.owner s.watcher s.shared.stream r.story z.titled;
      },
      z.told tty r.story,
    )
