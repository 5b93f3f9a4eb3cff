-- ===== src/Output/Run/Results.antt =====
-- What the lines written by the runner of internal/output/run.go say of its tasks.
use mathlib.Core.List.{append_assoc, append-nil}
use workspace_cli.Output.Run.{
  Drain, Line, Owner, Watcher, announced, blocked, claimed, died, drain_done, draining, dying,
  ended, ending_state, erase_due, frame_drawn, frame_erased, framed, gone, halted, interrupting,
  killed, line_idle, line_interrupted, line_result, line_started, log_lost, logged, next, opened,
  reporting, reporting_none, result_due, returned, run_failed, run_ok, run_panicked, running, said,
  taking, waiting, warned, writing,
}
use workspace_cli.Output.State.{State, state_fail}
use workspace_cli.Prelude.{[], List, Option, String, ap, none, refl, some, sym, ◌++◌, ◌∙◌, ◌∷◌, ◌≡◌}

module _ {A : Type 0} (f : Line → List A) where
  abbrev pub collect : List Line → List A
  collect [] = []
  collect (l ∷ ls) = f l ++ collect ls

  pub collect-append : (xs ys : List Line) → collect (xs ++ ys) ≡ collect xs ++ collect ys
  collect-append [] ys = refl
  collect-append (x ∷ xs) ys =
      ap (λ r. f x ++ r) (collect-append xs ys) ∙ sym (append_assoc (f x) (collect xs) (collect ys))

  pub collect-write : (xs : List Line) (l : Line) → collect (xs ++ l ∷ []) ≡ collect xs ++ f l
  collect-write xs l = collect-append xs (l ∷ []) ∙ ap (λ r. collect xs ++ r) (append-nil (f l))

  pub collect-skip : (xs : List Line) (l : Line) → f l ≡ [] → collect (xs ++ l ∷ []) ≡ collect xs
  collect-skip xs l q = collect-write xs l ∙ ap (λ r. collect xs ++ r) q ∙ append-nil (collect xs)

-- A result line: the state of a task that ended, or that it was interrupted.
pub data Entry : Type 0 where
  finished : State → String → Entry
  interrupted : String → Entry

abbrev pub result_of : Line → List Entry
result_of (line_result st t) = finished st t ∷ []
result_of (line_interrupted t) = interrupted t ∷ []
result_of log_lost = []
result_of frame_drawn = []
result_of frame_erased = []
result_of (line_started t) = []
result_of (line_idle t) = []
result_of (said m) = []

abbrev pub idle_of : Line → List String
idle_of (line_idle t) = t ∷ []
idle_of (line_result st t) = []
idle_of (line_interrupted t) = []
idle_of log_lost = []
idle_of frame_drawn = []
idle_of frame_erased = []
idle_of (line_started t) = []
idle_of (said m) = []

abbrev pub start_of : Line → List String
start_of (line_started t) = t ∷ []
start_of (line_idle t) = []
start_of (line_result st t) = []
start_of (line_interrupted t) = []
start_of log_lost = []
start_of frame_drawn = []
start_of frame_erased = []
start_of (said m) = []

-- The entry of the current task, once its result line is written.
abbrev pub written_entry : Drain → Entry → List Entry
written_entry erase_due x = []
written_entry result_due x = []
written_entry taking x = x ∷ []
written_entry (writing ms) x = x ∷ []
written_entry drain_done x = x ∷ []

abbrev pub owner_entry : Owner → List Entry
owner_entry (next ts) = []
owner_entry (reporting_none ts) = []
owner_entry (halted ts) = []
owner_entry (logged kept t ts) = []
owner_entry (claimed kept t ts) = []
owner_entry (warned t ts) = []
owner_entry (announced t ts) = []
owner_entry (opened t ts) = []
owner_entry (framed t ts) = []
owner_entry (running t ts) = []
owner_entry (ended e t ts) = []
owner_entry (draining e t ts d) = written_entry d (finished (ending_state e) t)
owner_entry (reporting f ts) = finished state_fail f ∷ []
owner_entry (returned run_ok) = []
owner_entry (returned (run_failed none)) = []
owner_entry (returned (run_failed (some f))) = finished state_fail f ∷ []
owner_entry (returned (run_panicked t ts)) = finished state_fail t ∷ []

abbrev pub drained_entry : Option String → List Entry
drained_entry none = []
drained_entry (some t) = interrupted t ∷ []

abbrev pub watcher_entry : Watcher → List Entry
watcher_entry waiting = []
watcher_entry blocked = []
watcher_entry gone = []
watcher_entry (interrupting t d) = written_entry d (interrupted t)
watcher_entry (dying was) = drained_entry was
watcher_entry (died was) = drained_entry was
watcher_entry (killed was) = watcher_entry was

-- The task that the watcher drains.
abbrev pub drained_by : Watcher → List String
drained_by waiting = []
drained_by blocked = []
drained_by gone = []
drained_by (interrupting t d) = t ∷ []
drained_by (dying none) = []
drained_by (dying (some t)) = t ∷ []
drained_by (died none) = []
drained_by (died (some t)) = t ∷ []
drained_by (killed was) = drained_by was

-- The current or last task, if it has been started and is not done.
abbrev pub begun : Owner → Watcher → List String
begun (next ts) wt = []
begun (reporting_none ts) wt = []
begun (halted ts) wt = drained_by wt
begun (logged kept t ts) wt = []
begun (claimed kept t ts) wt = []
begun (warned t ts) wt = []
begun (announced t ts) wt = t ∷ []
begun (opened t ts) wt = t ∷ []
begun (framed t ts) wt = t ∷ []
begun (running t ts) wt = t ∷ []
begun (ended e t ts) wt = t ∷ []
begun (draining e t ts d) wt = t ∷ []
begun (reporting f ts) wt = f ∷ []
begun (returned run_ok) wt = []
begun (returned (run_failed none)) wt = []
begun (returned (run_failed (some f))) wt = f ∷ []
begun (returned (run_panicked t ts)) wt = t ∷ []

-- The tasks that are not done: the one that failed, those reported as idle, and the others.
abbrev pub failed_of : Owner → List String
failed_of (next ts) = []
failed_of (reporting_none ts) = []
failed_of (halted ts) = []
failed_of (logged kept t ts) = []
failed_of (claimed kept t ts) = []
failed_of (warned t ts) = []
failed_of (announced t ts) = []
failed_of (opened t ts) = []
failed_of (framed t ts) = []
failed_of (running t ts) = []
failed_of (ended e t ts) = []
failed_of (draining e t ts d) = []
failed_of (reporting f ts) = f ∷ []
failed_of (returned run_ok) = []
failed_of (returned (run_failed none)) = []
failed_of (returned (run_failed (some f))) = f ∷ []
failed_of (returned (run_panicked t ts)) = t ∷ []

abbrev pub rest_of : Owner → List String
rest_of (next ts) = ts
rest_of (reporting_none ts) = ts
rest_of (halted ts) = ts
rest_of (logged kept t ts) = t ∷ ts
rest_of (claimed kept t ts) = t ∷ ts
rest_of (warned t ts) = t ∷ ts
rest_of (announced t ts) = t ∷ ts
rest_of (opened t ts) = t ∷ ts
rest_of (framed t ts) = t ∷ ts
rest_of (running t ts) = t ∷ ts
rest_of (ended e t ts) = t ∷ ts
rest_of (draining e t ts d) = t ∷ ts
rest_of (reporting f ts) = ts
rest_of (returned run_ok) = []
rest_of (returned (run_failed f)) = []
rest_of (returned (run_panicked t ts)) = ts

-- Idle lines are written last.
abbrev pub Quiet : Owner → List String → Type 0
Quiet (next ts) ids = ids ≡ []
Quiet (reporting_none ts) ids = Unit
Quiet (halted ts) ids = ids ≡ []
Quiet (logged kept t ts) ids = ids ≡ []
Quiet (claimed kept t ts) ids = ids ≡ []
Quiet (warned t ts) ids = ids ≡ []
Quiet (announced t ts) ids = ids ≡ []
Quiet (opened t ts) ids = ids ≡ []
Quiet (framed t ts) ids = ids ≡ []
Quiet (running t ts) ids = ids ≡ []
Quiet (ended e t ts) ids = ids ≡ []
Quiet (draining e t ts d) ids = ids ≡ []
Quiet (reporting f ts) ids = Unit
Quiet (returned run_ok) ids = ids ≡ []
Quiet (returned (run_failed f)) ids = Unit
Quiet (returned (run_panicked t ts)) ids = ids ≡ []
