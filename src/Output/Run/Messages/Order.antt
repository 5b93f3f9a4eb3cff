-- ===== src/Output/Run/Messages/Order.antt =====
-- The messages in a run of internal/output/run.go.
use mathlib.Core.List.{append-nil}
use mathlib.Core.Path.{ap₂}
use workspace_cli.Output.Run.{
  Drain, Owner, Shared, TaskState, Watcher, blocked, die_after, died, drain, drain_done, dying,
  erase_due, frame_drawn, gone, interrupting, killed, line_interrupted, result_due, returned, said,
  taking, task_closed, task_draining, task_interrupted, task_running, task_starting, waiting,
  write_line, writing,
}
use workspace_cli.Output.Run.Agree.{Consistent}
use workspace_cli.Output.Run.Agree.Steps.{Agreed, move-Agreed, start-Agreed}
use workspace_cli.Output.Run.Messages.{
  batch, heard, heard-drain, heard_laws, owner_batch, said_in, said_in-append, watcher_batch,
}
use workspace_cli.Output.Run.Messages.Fifo.{
  Active-batch, batch-first_drain, held, heard-owner_step, held_none,
}
use workspace_cli.Output.Run.Moves.{
  System, catch_signal, quit, redraw, say, take_over, watcher_step, Move, again, is_over, move, own,
  play, second_signal, signal, speak, start, step, stop, tick, watch, wake,
}
use workspace_cli.Prelude.{
  [], Bool, List, String, ap, false, if_intro, refl, sym, true, ℕ, ◌++◌, ◌∙◌, ◌∷◌, ◌≡◌, Bool-cases,
  if_false, if_true, inl, inr, subst,
}

pub record InOrder (s : System) : Type 0 where
  pub agreed : Agreed s
  pub order : s.spoken ≡ heard (held s.owner s.watcher) s.shared

heard-die_after :
    (o : Owner) (t : String) (d : Drain) (w : Shared)
    → owner_batch o ≡ []
    → heard (held o (die_after t (d, w)).0) (die_after t (d, w)).1 ≡ heard (batch d) w
unfolding die_after
heard-die_after o t erase_due w q = ap (λ x. heard (x ++ []) w) q
heard-die_after o t result_due w q = ap (λ x. heard (x ++ []) w) q
heard-die_after o t taking w q = ap (λ x. heard (x ++ []) w) q
heard-die_after o t (writing ms) w q = ap (λ x. heard (x ++ ms) w) q
heard-die_after o t drain_done w q = ap (λ x. heard (x ++ []) w) q

heard-redraw : (b : List ℕ) (w : Shared) → heard b (redraw w) ≡ heard b w
unfolding redraw write_line
heard-redraw b w =
    if_intro (λ v. heard b v ≡ heard b w) w.ticking
      (record w { stream = w.stream ++ frame_drawn ∷ [] }) w (λ e. simp heard_laws) (λ e. refl)

-- A queued message comes last; one that is written finds nothing taken and nothing queued.
heard-say :
    (m : ℕ) (b : List ℕ) (w : Shared)
    → (w.gate ≡ false → (b ≡ []) × (w.queue ≡ []))
    → heard b (say m w) ≡ heard b w ++ m ∷ []
unfolding say write_line
heard-say m b w h =
    if_intro (λ v. heard b v ≡ heard b w ++ m ∷ []) w.gate (record w { queue = w.queue ++ m ∷ [] })
      (record w { stream = w.stream ++ said m ∷ [] }) (λ g. simp heard_laws)
      (λ g.
        let (p, q) = h g in
        let nothing : b ++ w.queue ≡ [] = ap₂ (λ x y. x ++ y) p q in
        ap (λ x. said_in (w.stream ++ said m ∷ []) ++ x) nothing
        ∙ append-nil _
        ∙ said_in-append w.stream (said m ∷ [])
        ∙ sym (
            ap (λ x. (said_in w.stream ++ x) ++ m ∷ []) nothing
            ∙ ap (λ x. x ++ m ∷ []) (append-nil (said_in w.stream))))

module _ (tty : Bool) where
  heard-take_over :
      (o : Owner) (st : TaskState) (w : Shared)
      → heard (held o (take_over tty st w).0) (take_over tty st w).1 ≡ heard (held o blocked) w
  unfolding take_over
  heard-take_over o task_starting w = refl
  heard-take_over o task_draining w = refl
  heard-take_over o task_running w = ap (λ x. heard (owner_batch o ++ x) w) (batch-first_drain tty)
  heard-take_over o task_closed w = refl
  heard-take_over o task_interrupted w = refl

  heard-wake :
      (o : Owner) (b : Bool) (w : Shared)
      → heard (held o (wake tty b w).0) (wake tty b w).1 ≡ heard (held o blocked) w
  unfolding wake
  heard-wake o true w = heard-take_over o w.state w
  heard-wake o false w = refl

  heard-watcher_step :
      (o : Owner) (wt : Watcher) (w : Shared)
      → Consistent o wt w
      → heard (held o (watcher_step tty wt w).0) (watcher_step tty wt w).1 ≡ heard (held o wt) w
  unfolding watcher_step
  heard-watcher_step o waiting w h = refl
  heard-watcher_step o blocked w h = heard-wake o w.woken w
  heard-watcher_step o (interrupting t d) w (h, a) =
      let l = line_interrupted t in
      heard-die_after o t (drain l d w).0 (drain l d w).1 (Active-batch a)
      ∙ heard-drain d l w refl
      ∙ sym (ap (λ x. heard (x ++ batch d) w) (Active-batch a))
  heard-watcher_step o (dying t) w h = refl
  heard-watcher_step o (died t) w h = refl
  heard-watcher_step o (killed was) w h = refl
  heard-watcher_step o gone w h = refl

  heard-catch_signal :
      (o : Owner) (wt : Watcher) (w : Shared)
      → heard (held o (catch_signal tty wt w).0) (catch_signal tty wt w).1 ≡ heard (held o wt) w
  unfolding catch_signal
  heard-catch_signal o waiting w = heard-take_over o w.state (record w { pending = true })
  heard-catch_signal o blocked w = refl
  heard-catch_signal o (interrupting t d) w = refl
  heard-catch_signal o (dying t) w = refl
  heard-catch_signal o (died t) w = refl
  heard-catch_signal o (killed was) w = refl
  heard-catch_signal o gone w = refl

  quit-batch : (o : Owner) (wt : Watcher) → watcher_batch (quit o wt) ≡ watcher_batch wt
  unfolding quit
  quit-batch (returned r) waiting = refl
  quit-batch (returned r) blocked = refl
  quit-batch (returned r) (interrupting t d) = refl
  quit-batch (returned r) (dying t) = refl
  quit-batch (returned r) (died t) = refl
  quit-batch (returned r) (killed was) = refl
  quit-batch (returned r) gone = refl
  quit-batch o wt = refl

second_signal-batch : (wt : Watcher) → watcher_batch (second_signal wt) ≡ watcher_batch wt
unfolding second_signal
second_signal-batch waiting = refl
second_signal-batch blocked = refl
second_signal-batch (interrupting t d) = refl
second_signal-batch (dying t) = refl
second_signal-batch (died t) = refl
second_signal-batch (killed was) = refl
second_signal-batch gone = refl

module _ (tty : Bool) where
  move-heard :
      (m : Move) (s : System)
      → InOrder s
      → is_over s.watcher ≡ false
      → (move tty m s).spoken
        ≡ heard (held (move tty m s).owner (move tty m s).watcher) (move tty m s).shared
  unfolding move
  move-heard (own env) s h v =
      h.order ∙ sym (heard-owner_step tty env s.owner s.watcher s.shared h.agreed.0 v)
  move-heard watch s h v =
      h.order ∙ sym (heard-watcher_step tty s.owner s.watcher s.shared h.agreed.0)
  move-heard signal s h v = h.order ∙ sym (heard-catch_signal tty s.owner s.watcher s.shared)
  move-heard again s h v =
      h.order
      ∙ sym (ap (λ b. heard (owner_batch s.owner ++ b) s.shared) (second_signal-batch s.watcher))
  move-heard stop s h v =
      h.order
      ∙ sym (ap (λ b. heard (owner_batch s.owner ++ b) s.shared) (quit-batch tty s.owner s.watcher))
  move-heard tick s h v = h.order ∙ sym (heard-redraw (held s.owner s.watcher) s.shared)
  move-heard (speak m) s h v =
      ap (λ l. l ++ m ∷ []) h.order
      ∙ sym (
          heard-say m (held s.owner s.watcher) s.shared
            (λ g. (held_none s.owner s.watcher s.shared h.agreed.0 v g, h.agreed.1 g)))

  pub step-InOrder : (m : Move) (s : System) → InOrder s → InOrder (step tty m s)
  unfolding step
  step-InOrder m s h = elim (Bool-cases (is_over s.watcher)) [
    | inl o ↦ subst InOrder (sym (if_true (is_over s.watcher) s (move tty m s) o)) h
    | inr o ↦
        subst InOrder (sym (if_false (is_over s.watcher) s (move tty m s) o))
          (record { agreed = move-Agreed tty m s h.agreed; order = move-heard m s h o })
  ]

  play-InOrder_from : (ms : List Move) (s : System) → InOrder s → InOrder (play tty ms s)
  unfolding play
  play-InOrder_from [] s h = h
  play-InOrder_from (m ∷ ms) s h = play-InOrder_from ms (step tty m s) (step-InOrder m s h)

  pub play-InOrder : (ms : List Move) (ts : List String) → InOrder (play tty ms (start ts))
  play-InOrder ms ts =
      play-InOrder_from ms (start ts) (record { agreed = start-Agreed tty ts; order = refl })
