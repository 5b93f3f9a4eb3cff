-- ===== src/Output/Run/Messages.antt =====
-- The order of the messages said while the runner of internal/output/run.go works.
pub mod Fifo
pub mod Order
use mathlib.Core.List.{append_assoc, append-nil}
use workspace_cli.Output.Run.{
  Drain, Line, Owner, Shared, Watcher, announced, blocked, claimed, died, drain, drain_done,
  draining, dying, ended, erase_due, frame_drawn, frame_erased, framed, gone, halted, interrupting,
  killed, line_idle, line_interrupted, line_result, line_started, log_lost, logged, next, opened,
  report_loss, reporting, reporting_none, result_due, returned, running, said, take_batch, taking,
  waiting, warned, write_line, writing, batch,
}
use workspace_cli.Prelude.{
  [], Bool, List, ap, if_intro, refl, sym, true, ℕ, ◌++◌, ◌||◌, ◌∙◌, ◌∷◌, ◌≡◌,
}

-- The messages among the lines written.
abbrev pub said_in : List Line → List ℕ
said_in [] = []
said_in (said m ∷ ls) = m ∷ said_in ls
said_in (log_lost ∷ ls) = said_in ls
said_in (frame_drawn ∷ ls) = said_in ls
said_in (frame_erased ∷ ls) = said_in ls
said_in (line_started t ∷ ls) = said_in ls
said_in (line_idle t ∷ ls) = said_in ls
said_in (line_interrupted t ∷ ls) = said_in ls
said_in (line_result st t ∷ ls) = said_in ls

pub said_in-append : (xs ys : List Line) → said_in (xs ++ ys) ≡ said_in xs ++ said_in ys
said_in-append [] ys = refl
said_in-append (said m ∷ xs) ys = ap (λ l. m ∷ l) (said_in-append xs ys)
said_in-append (log_lost ∷ xs) ys = said_in-append xs ys
said_in-append (frame_drawn ∷ xs) ys = said_in-append xs ys
said_in-append (frame_erased ∷ xs) ys = said_in-append xs ys
said_in-append (line_started t ∷ xs) ys = said_in-append xs ys
said_in-append (line_idle t ∷ xs) ys = said_in-append xs ys
said_in-append (line_interrupted t ∷ xs) ys = said_in-append xs ys
said_in-append (line_result st t ∷ xs) ys = said_in-append xs ys

abbrev pub owner_batch : Owner → List ℕ
owner_batch (next ts) = []
owner_batch (reporting_none ts) = []
owner_batch (halted ts) = []
owner_batch (logged kept t ts) = []
owner_batch (claimed kept t ts) = []
owner_batch (warned t ts) = []
owner_batch (announced t ts) = []
owner_batch (opened t ts) = []
owner_batch (framed t ts) = []
owner_batch (running t ts) = []
owner_batch (ended e t ts) = []
owner_batch (draining e t ts d) = batch d
owner_batch (reporting f ts) = []
owner_batch (returned o) = []

abbrev pub watcher_batch : Watcher → List ℕ
watcher_batch (interrupting t d) = batch d
watcher_batch waiting = []
watcher_batch blocked = []
watcher_batch (dying t) = []
watcher_batch (died t) = []
watcher_batch (killed was) = watcher_batch was
watcher_batch gone = []

-- Written, then taken, then queued.
abbrev pub heard : List ℕ → Shared → List ℕ
heard b w = said_in w.stream ++ (b ++ w.queue)

pub ruleset heard_laws = (said_in-append, append_assoc, append-nil)

pub heard-report_loss : (k : Bool) (b : List ℕ) (w : Shared) → heard b (report_loss k w) ≡ heard b w
unfolding report_loss write_line
heard-report_loss k b w =
    if_intro (λ v. heard b v ≡ heard b w) (k || w.lost) w
      (record w { stream = w.stream ++ log_lost ∷ []; lost = true }) (λ e. refl)
      (λ e. simp heard_laws)

heard-take_batch :
    (q : List ℕ) (w : Shared)
    → w.queue ≡ q
    → heard (batch (take_batch q w).0) (take_batch q w).1 ≡ heard [] w
unfolding take_batch
heard-take_batch [] w e = refl
heard-take_batch (m ∷ q) w e = ap (λ l. said_in w.stream ++ l) (append-nil (m ∷ q) ∙ sym e)

pub heard-drain :
    (d : Drain) (l : Line) (w : Shared)
    → said_in (l ∷ []) ≡ []
    → heard (batch (drain l d w).0) (drain l d w).1 ≡ heard (batch d) w
unfolding drain write_line
heard-drain erase_due l w n = simp heard_laws
heard-drain result_due l w n =
    ap (λ x. x ++ w.queue)
      (said_in-append w.stream (l ∷ [])
        ∙ ap (λ x. said_in w.stream ++ x) n
        ∙ append-nil (said_in w.stream))
heard-drain taking l w n = heard-take_batch w.queue w refl
heard-drain drain_done l w n = refl
heard-drain (writing []) l w n = refl
heard-drain (writing (m ∷ ms)) l w n = simp heard_laws
