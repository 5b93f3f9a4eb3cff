-- ===== src/Output/Run/Story.antt =====
-- The story that the lines tell of the tasks: the statement, and the owner's steps.
pub mod Owned
pub mod Watched
pub mod Played
use mathlib.Core.List.{append_assoc, append-nil, map-append}
use mathlib.Core.Path.{ap₂}
use workspace_cli.Output.Run.{
  Drain, Ending, Line, Owner, Shared, Watcher, after, drain, drain_done, draining, ended_err,
  ended_ok, ended_panic, erase_due, frame_erased, line_idle, result_due, said, settle_task,
  settle_after, take_batch, taking, write_line, writing,
}
use workspace_cli.Output.Run.Results.{
  Entry, Quiet, begun, collect, collect-skip, collect-write, failed_of, finished, idle_of,
  owner_entry, rest_of, result_of, start_of, watcher_entry, written_entry,
}
use workspace_cli.Output.State.{state_ok}
use workspace_cli.Prelude.{
  [], Bool, List, String, ap, if◌then◌else◌, map, refl, subst, sym, ℕ, ◌++◌, ◌∙◌, ◌∷◌, ◌≡◌,
}

abbrev pub passed : List String → List Entry
passed ts = map (finished state_ok) ts

-- The tasks ts₀ are those that are done, the one that failed, those reported idle, and the rest.
pub record Story (tty : Bool) (ts₀ : List String) (o : Owner) (wt : Watcher) (ls : List Line)
    : Type 0 where
  pub passes : List String
  pub results : collect result_of ls ≡ passed passes ++ (owner_entry o ++ watcher_entry wt)
  pub tasks : ts₀ ≡ passes ++ (failed_of o ++ (collect idle_of ls ++ rest_of o))
  pub quiet : Quiet o (collect idle_of ls)
  pub starts : collect start_of ls ≡ (if tty then [] else passes ++ begun o wt)

-- A line that is none of the tasks'.
pub Story-skip :
    {tty : Bool} {ts : List String} {o : Owner} {wt : Watcher} {ls : List Line} (l : Line)
    → result_of l ≡ []
    → idle_of l ≡ []
    → start_of l ≡ []
    → Story tty ts o wt ls
    → Story tty ts o wt (ls ++ l ∷ [])
Story-skip {o} {ls} l r i b h = record {
  passes = h.passes;
  results = collect-skip result_of ls l r ∙ h.results;
  tasks =
      h.tasks
      ∙ ap (λ x. h.passes ++ (failed_of o ++ (x ++ rest_of o))) (sym (collect-skip idle_of ls l i));
  quiet = subst (Quiet o) (sym (collect-skip idle_of ls l i)) h.quiet;
  starts = collect-skip start_of ls l b ∙ h.starts;
}

pub Story-idle :
    {tty : Bool} {ts₀ : List String} (o o' : Owner) {wt : Watcher} {ls : List Line} (t : String)
    → rest_of o ≡ t ∷ rest_of o'
    → failed_of o' ≡ failed_of o
    → owner_entry o' ≡ owner_entry o
    → begun o' wt ≡ begun o wt
    → ((ids : List String) → Quiet o' ids)
    → Story tty ts₀ o wt ls
    → Story tty ts₀ o' wt (ls ++ line_idle t ∷ [])
Story-idle {tty} o o' {wt} {ls} t r f e b q h = record {
  passes = h.passes;
  results =
      collect-skip result_of ls (line_idle t) refl
      ∙ h.results
      ∙ ap (λ x. passed h.passes ++ (x ++ watcher_entry wt)) (sym e);
  tasks =
      h.tasks
      ∙ ap₂ (λ x y. h.passes ++ (x ++ (collect idle_of ls ++ y))) (sym f) r
      ∙ ap (λ x. h.passes ++ (failed_of o' ++ x))
          (sym (append_assoc (collect idle_of ls) (t ∷ []) (rest_of o')))
      ∙ ap (λ x. h.passes ++ (failed_of o' ++ (x ++ rest_of o')))
          (sym (collect-write idle_of ls (line_idle t)));
  quiet = q (collect idle_of (ls ++ line_idle t ∷ []));
  starts =
      collect-skip start_of ls (line_idle t) refl
      ∙ h.starts
      ∙ ap (λ x. if tty then [] else h.passes ++ x) (sym b);
}

-- The owner moves, and writes none of the tasks' lines.
pub Story-moves :
    {tty : Bool} {ts : List String} (o o' : Owner) (wt wt' : Watcher) {ls : List Line}
    → failed_of o' ≡ failed_of o
    → rest_of o' ≡ rest_of o
    → owner_entry o' ++ watcher_entry wt' ≡ owner_entry o ++ watcher_entry wt
    → begun o' wt' ≡ begun o wt
    → (Quiet o (collect idle_of ls) → Quiet o' (collect idle_of ls))
    → Story tty ts o wt ls
    → Story tty ts o' wt' ls
Story-moves {tty} o o' wt wt' {ls} f r e b q h = record {
  passes = h.passes;
  results = h.results ∙ ap (λ x. passed h.passes ++ x) (sym e);
  tasks = h.tasks ∙ ap₂ (λ x y. h.passes ++ (x ++ (collect idle_of ls ++ y))) (sym f) (sym r);
  quiet = q h.quiet;
  starts = h.starts ∙ ap (λ x. if tty then [] else h.passes ++ x) (sym b);
}

-- The current task's entry is written.
pub Story-entry :
    {tty : Bool} {ts : List String} (o o' : Owner) (wt wt' : Watcher) {ls : List Line} (l : Line)
    → idle_of l ≡ []
    → start_of l ≡ []
    → failed_of o' ≡ failed_of o
    → rest_of o' ≡ rest_of o
    → owner_entry o ++ watcher_entry wt ≡ []
    → owner_entry o' ++ watcher_entry wt' ≡ result_of l
    → begun o' wt' ≡ begun o wt
    → ((ids : List String) → Quiet o ids → Quiet o' ids)
    → Story tty ts o wt ls
    → Story tty ts o' wt' (ls ++ l ∷ [])
Story-entry {tty} o o' wt wt' {ls} l i s f r e e' b q h = record {
  passes = h.passes;
  results =
      collect-write result_of ls l
      ∙ ap (λ x. x ++ result_of l)
          (h.results ∙ ap (λ x. passed h.passes ++ x) e ∙ append-nil (passed h.passes))
      ∙ ap (λ x. passed h.passes ++ x) (sym e');
  tasks =
      h.tasks
      ∙ ap₂ (λ x y. h.passes ++ (x ++ (collect idle_of ls ++ y))) (sym f) (sym r)
      ∙ ap (λ x. h.passes ++ (failed_of o' ++ (x ++ rest_of o')))
          (sym (collect-skip idle_of ls l i));
  quiet =
      q (collect idle_of (ls ++ l ∷ []))
        (subst (Quiet o) (sym (collect-skip idle_of ls l i)) h.quiet);
  starts =
      collect-skip start_of ls l s ∙ h.starts ∙ ap (λ x. if tty then [] else h.passes ++ x) (sym b);
}

-- A task is settled.
Story-after :
    {tty : Bool} {ts₀ : List String} (e : Ending) (t : String) (ts : List String) (wt : Watcher)
    {ls : List Line}
    → watcher_entry wt ≡ []
    → Story tty ts₀ (draining e t ts drain_done) wt ls
    → Story tty ts₀ (after e t ts) wt ls
unfolding after
Story-after {tty} ended_ok t ts wt {ls} n h = record {
  passes = h.passes ++ t ∷ [];
  results =
      h.results
      ∙ sym (append_assoc (passed h.passes) (finished state_ok t ∷ []) (watcher_entry wt))
      ∙ ap (λ x. x ++ watcher_entry wt) (sym (map-append (finished state_ok) h.passes (t ∷ [])));
  tasks =
      h.tasks
      ∙ ap (λ x. h.passes ++ (x ++ t ∷ ts)) h.quiet
      ∙ sym (append_assoc h.passes (t ∷ []) ts)
      ∙ ap (λ x. (h.passes ++ t ∷ []) ++ (x ++ ts)) (sym h.quiet);
  quiet = h.quiet;
  starts = h.starts ∙ ap (λ x. if tty then [] else x) (sym (append-nil (h.passes ++ t ∷ [])));
}
Story-after {tty} ended_err t ts wt {ls} n h = record {
  passes = h.passes;
  results = h.results;
  tasks =
      h.tasks
      ∙ ap (λ x. h.passes ++ (x ++ t ∷ ts)) h.quiet
      ∙ ap (λ x. h.passes ++ (t ∷ (x ++ ts))) (sym h.quiet);
  quiet = tt;
  starts = h.starts;
}
Story-after {tty} ended_panic t ts wt {ls} n h = record {
  passes = h.passes;
  results = h.results;
  tasks =
      h.tasks
      ∙ ap (λ x. h.passes ++ (x ++ t ∷ ts)) h.quiet
      ∙ ap (λ x. h.passes ++ (t ∷ (x ++ ts))) (sym h.quiet);
  quiet = h.quiet;
  starts = h.starts;
}

pub Story-settle_after :
    {tty : Bool} {ts₀ : List String} (e : Ending) (t : String) (ts : List String) (d : Drain)
    (wt : Watcher) (w : Shared)
    → watcher_entry wt ≡ []
    → Story tty ts₀ (draining e t ts d) wt w.stream
    → Story tty ts₀ (settle_after e t ts (d, w)).0 wt (settle_after e t ts (d, w)).1.stream
unfolding settle_after settle_task
Story-settle_after e t ts erase_due wt w n h = h
Story-settle_after e t ts result_due wt w n h = h
Story-settle_after e t ts taking wt w n h = h
Story-settle_after e t ts (writing ms) wt w n h = h
Story-settle_after e t ts drain_done wt w n h = Story-after e t ts wt n h

-- A drain's step, from a drain d of the stage s: the owner's, or the watcher's.
pub record Stage (s : Drain → Owner × Watcher) (x : Entry) (l : Line) : Type 0 where
  pub failed : (d e : Drain) → failed_of (s d).0 ≡ failed_of (s e).0
  pub rests : (d e : Drain) → rest_of (s d).0 ≡ rest_of (s e).0
  pub begins : (d e : Drain) → begun (s d).0 (s d).1 ≡ begun (s e).0 (s e).1
  pub quiets : (d e : Drain) (ids : List String) → Quiet (s d).0 ids → Quiet (s e).0 ids
  pub entries : (d : Drain) → owner_entry (s d).0 ++ watcher_entry (s d).1 ≡ written_entry d x
  pub gives : result_of l ≡ x ∷ []
  pub idles : idle_of l ≡ []
  pub begs : start_of l ≡ []

Story-Stage :
    {tty : Bool} {ts : List String} {s : Drain → Owner × Watcher} {x : Entry} {l : Line}
    → Stage s x l
    → (d e : Drain) {ls : List Line} → written_entry e x ≡ written_entry d x
    → Story tty ts (s d).0 (s d).1 ls
    → Story tty ts (s e).0 (s e).1 ls
Story-Stage {s} g d e q h =
    Story-moves (s d).0 (s e).0 (s d).1 (s e).1 (g.failed e d) (g.rests e d)
      (g.entries e ∙ q ∙ sym (g.entries d)) (g.begins e d) (g.quiets d e _) h

Story-take_batch :
    {tty : Bool} {ts : List String} {s : Drain → Owner × Watcher} {x : Entry} {l : Line}
    → Stage s x l
    → (q : List ℕ) (w : Shared) → Story tty ts (s taking).0 (s taking).1 w.stream
    → Story tty ts (s (take_batch q w).0).0 (s (take_batch q w).0).1 (take_batch q w).1.stream
unfolding take_batch
Story-take_batch g [] w h = Story-Stage g taking drain_done refl h
Story-take_batch g (m ∷ q) w h = Story-Stage g taking (writing (m ∷ q)) refl h

pub Story-drain :
    {tty : Bool} {ts : List String} {s : Drain → Owner × Watcher} {x : Entry} {l : Line}
    → Stage s x l
    → (d : Drain) (w : Shared) → Story tty ts (s d).0 (s d).1 w.stream
    → Story tty ts (s (drain l d w).0).0 (s (drain l d w).0).1 (drain l d w).1.stream
unfolding drain write_line
Story-drain g erase_due w h =
    Story-skip frame_erased refl refl refl (Story-Stage g erase_due result_due refl h)
Story-drain {s} {l} g result_due w h =
    Story-entry (s result_due).0 (s taking).0 (s result_due).1 (s taking).1 l g.idles g.begs
      (g.failed taking result_due) (g.rests taking result_due) (g.entries result_due)
      (g.entries taking ∙ sym g.gives) (g.begins taking result_due) (g.quiets result_due taking) h
Story-drain g taking w h = Story-take_batch g w.queue w h
Story-drain g drain_done w h = h
Story-drain g (writing []) w h = Story-Stage g (writing []) taking refl h
Story-drain g (writing (m ∷ ms)) w h =
    Story-skip (said m) refl refl refl (Story-Stage g (writing (m ∷ ms)) (writing ms) refl h)
