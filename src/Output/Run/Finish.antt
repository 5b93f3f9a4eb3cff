-- ===== src/Output/Run/Finish.antt =====
-- What has been written at any point of a run of internal/output/run.go.
pub mod Ended
use mathlib.Core.List.{append-nil}
use workspace_cli.Output.Run.{
  Drain, Line, Owner, Shared, Watcher, announced, blocked, claimed, died, drain_done, draining,
  dying, ended, ending_state, erase_due, framed, gone, halted, interrupting, killed, logged, next,
  opened, reporting, reporting_none, result_due, returned, run_failed, run_ok, run_panicked,
  running, taking, waiting, warned, writing,
}
use workspace_cli.Output.Run.Agree.{
  Active, Consistent, Parked, active_ended, active_halted, active_running, parked_active,
  parked_halted, parked_logged, parked_next, parked_none, parked_reporting, parked_returned,
}
use workspace_cli.Output.Run.Messages.{said_in}
use workspace_cli.Output.Run.Messages.Fifo.{held}
use workspace_cli.Output.Run.Messages.Order.{play-InOrder}
use workspace_cli.Output.Run.Moves.{Move, play, start}
use workspace_cli.Output.Run.Results.{
  Entry, Quiet, collect, drained_entry, failed_of, finished, idle_of, interrupted, owner_entry,
  rest_of, result_of, watcher_entry, written_entry,
}
use workspace_cli.Output.Run.Story.{passed}
use workspace_cli.Output.Run.Story.Played.{play-Reported}
use workspace_cli.Output.State.{state_fail}
use workspace_cli.Prelude.{
  [], Bool, List, Option, String, none, refl, some, subst, sym, ℕ, ◌++◌, ◌∷◌, ◌≡◌,
}

abbrev pub title_of : Entry → String
title_of (finished st t) = t
title_of (interrupted t) = t

-- At most one entry, of the first task that is not done.
pub data Last : List String → List Entry → Type 0 where
  no_entry : (ts : List String) → Last ts []
  one_entry : (x : Entry) (t : String) (ts : List String) → title_of x ≡ t → Last (t ∷ ts) (x ∷ [])

Last-due :
    (t : String) (ts : List String) (d : Drain) (x : Entry)
    → title_of x ≡ t
    → Last (t ∷ ts) (written_entry d x)
Last-due t ts erase_due x q = no_entry (t ∷ ts)
Last-due t ts result_due x q = no_entry (t ∷ ts)
Last-due t ts taking x q = one_entry x t ts q
Last-due t ts (writing ms) x q = one_entry x t ts q
Last-due t ts drain_done x q = one_entry x t ts q

undone : Owner → List String → List String
undone o ids = failed_of o ++ (ids ++ rest_of o)

Last-owner :
    (o : Owner) (ids : List String)
    → Quiet o ids
    → Last (failed_of o ++ (ids ++ rest_of o)) (owner_entry o)
Last-owner (next ts) ids q = no_entry _
Last-owner (reporting_none ts) ids q = no_entry _
Last-owner (halted ts) ids q = no_entry _
Last-owner (logged kept t ts) ids q = no_entry _
Last-owner (claimed kept t ts) ids q = no_entry _
Last-owner (warned t ts) ids q = no_entry _
Last-owner (announced t ts) ids q = no_entry _
Last-owner (opened t ts) ids q = no_entry _
Last-owner (framed t ts) ids q = no_entry _
Last-owner (running t ts) ids q = no_entry _
Last-owner (ended e t ts) ids q = no_entry _
Last-owner (draining e t ts d) ids q =
    subst (λ x. Last (x ++ t ∷ ts) (written_entry d (finished (ending_state e) t))) (sym q)
      (Last-due t ts d (finished (ending_state e) t) refl)
Last-owner (reporting f ts) ids q = one_entry (finished state_fail f) f (ids ++ ts) refl
Last-owner (returned run_ok) ids q = no_entry _
Last-owner (returned (run_failed none)) ids q = no_entry _
Last-owner (returned (run_failed (some f))) ids q =
    one_entry (finished state_fail f) f (ids ++ []) refl
Last-owner (returned (run_panicked t ts)) ids q =
    one_entry (finished state_fail t) t (ids ++ ts) refl

Last-Active :
    {t : String} {o : Owner}
    → Active t o
    → (ids : List String) → Quiet o ids
    → (es : List Entry) → ((ts : List String) → Last (t ∷ ts) es)
    → Last (failed_of o ++ (ids ++ rest_of o)) (owner_entry o ++ es)
Last-Active {t} (active_running ts) ids q es h = subst (λ x. Last (x ++ t ∷ ts) es) (sym q) (h ts)
Last-Active {t} (active_ended e ts) ids q es h = subst (λ x. Last (x ++ t ∷ ts) es) (sym q) (h ts)
Last-Active {t} (active_halted ts) ids q es h = subst (λ x. Last (x ++ t ∷ ts) es) (sym q) (h ts)

Last-alone :
    (o : Owner) (ids : List String)
    → Quiet o ids
    → Last (failed_of o ++ (ids ++ rest_of o)) (owner_entry o ++ [])
Last-alone o ids q =
    subst (Last (failed_of o ++ (ids ++ rest_of o))) (sym (append-nil (owner_entry o)))
      (Last-owner o ids q)

Last-Parked :
    {was : Option String} {o : Owner}
    → Parked was o
    → (ids : List String) → Quiet o ids
    → Last (failed_of o ++ (ids ++ rest_of o)) (owner_entry o ++ drained_entry was)
Last-Parked (parked_next ts) ids q = Last-alone (next ts) ids q
Last-Parked (parked_none ts) ids q = Last-alone (reporting_none ts) ids q
Last-Parked (parked_logged k t ts) ids q = Last-alone (logged k t ts) ids q
Last-Parked (parked_reporting f ts) ids q = Last-alone (reporting f ts) ids q
Last-Parked (parked_returned r) ids q = Last-alone (returned r) ids q
Last-Parked (parked_halted t ts) ids q = Last-alone (halted (t ∷ ts)) ids q
Last-Parked (parked_active {t} a) ids q =
    Last-Active a ids q (interrupted t ∷ []) (λ ts. one_entry (interrupted t) t ts refl)

Last-entries :
    (o : Owner) (wt : Watcher) (w : Shared) (ids : List String)
    → Consistent o wt w
    → Quiet o ids
    → Last (failed_of o ++ (ids ++ rest_of o)) (owner_entry o ++ watcher_entry wt)
Last-entries o waiting w ids c q = Last-alone o ids q
Last-entries o blocked w ids c q = Last-alone o ids q
Last-entries o gone w ids c q = Last-alone o ids q
Last-entries o (interrupting t d) w ids (c, a) q =
    Last-Active a ids q (written_entry d (interrupted t))
      (λ ts. Last-due t ts d (interrupted t) refl)
Last-entries o (dying was) w ids (c, a) q = Last-Parked a ids q
Last-entries o (died was) w ids (c, a) q = Last-Parked a ids q
Last-entries o (killed was) w ids c q = Last-entries o was w ids c q

-- The result lines: an ok for each task of an initial segment, and then at most one more.
pub record IsTranscript (ts : List String) (ls : List Line) : Type 0 where
  pub done : List String
  pub left : List String
  pub last : List Entry
  pub tasks : ts ≡ done ++ left
  pub results : collect result_of ls ≡ passed done ++ last
  pub at_most_one : Last left last

-- Whatever the steps of the owner, the watcher, the ticker, the tasks and the signals interleave to,
-- the messages written are the first ones said, in their order; and the result lines are an ok for
-- each task of an initial segment of the tasks, and then at most one more, which is of the next task.
pub play-IsTranscript :
    (tty : Bool) (ms : List Move) (ts : List String)
    → ((rest : List ℕ) × ((play tty ms (start ts)).spoken
          ≡ said_in (play tty ms (start ts)).shared.stream ++ rest))
      × IsTranscript ts (play tty ms (start ts)).shared.stream
play-IsTranscript tty ms ts =
    let s = play tty ms (start ts) in
    let r = play-Reported tty ms ts in
    (
      (held s.owner s.watcher ++ s.shared.queue, (play-InOrder tty ms ts).order),
      record {
        done = r.story.passes;
        left = failed_of s.owner ++ (collect idle_of s.shared.stream ++ rest_of s.owner);
        last = owner_entry s.owner ++ watcher_entry s.watcher;
        tasks = r.story.tasks;
        results = r.story.results;
        at_most_one = Last-entries s.owner s.watcher s.shared _ r.agreed.0 r.story.quiet;
      },
    )
