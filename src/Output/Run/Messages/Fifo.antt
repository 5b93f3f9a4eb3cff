-- ===== src/Output/Run/Messages/Fifo.antt =====
-- The order of the messages, step by step.
use mathlib.Core.List.{append-nil}
use mathlib.Core.Path.{ap₂}
use workspace_cli.Output.Run.{
  Drain, Ending, Env, LogMade, Owner, Shared, TaskState, Watcher, after, announced, blocked, claim,
  claim_task, claimable, claimed, died, drain, drain_done, draining, dying, ended, ended_err,
  ended_ok, ended_panic, ending_state, erase_due, frame_drawn, framed, gone, halted, interrupting,
  killed, leave, leave_from, leave_task, line_result, line_started, log_kept, log_none, log_null,
  logged, make_log, next, opened, publish, reporting, reporting_none, result_due, returned, running,
  settle_task, settle_after, taking, task_closed, task_draining, task_interrupted, task_running,
  task_starting, waiting, warned, write_line, writing,
}
use workspace_cli.Output.Run.Agree.{
  Active, Consistent, Free, Parked, Taken, active_ended, active_halted, active_running,
  done_returned, open_of, parked_active, parked_halted, parked_logged, parked_next, parked_none,
  parked_reporting, parked_returned,
}
use workspace_cli.Output.Run.Messages.{
  batch, heard, heard-drain, heard-report_loss, heard_laws, owner_batch, watcher_batch,
}
use workspace_cli.Output.Run.Moves.{announce, draw_frame, first_drain, is_over, owner_step}
use workspace_cli.Prelude.{
  [], Bool, List, Option, String, ap, false, false≢true, if_intro, refl, sym, true, ℕ, ◌++◌, ◌∙◌,
  ◌∷◌, ◌≡◌,
}

abbrev pub held : Owner → Watcher → List ℕ
held o wt = owner_batch o ++ watcher_batch wt

-- One drain at a time.
draining_alone :
    (e : Ending) (t : String) (ts : List String) (d : Drain) (wt : Watcher) (w : Shared)
    → Consistent (draining e t ts d) wt w
    → is_over wt ≡ false
    → watcher_batch wt ≡ []
draining_alone e t ts d waiting w h v = refl
draining_alone e t ts d blocked w h v = refl
draining_alone e t ts d (interrupting u f) w (h, a) v = elim a [ ]
draining_alone e t ts d (dying u) w h v = refl
draining_alone e t ts d (died u) w h v = refl
draining_alone e t ts d (killed was) w h v = absurd (false≢true (sym v))
draining_alone e t ts d gone w h v = refl

pub Active-batch : {t : String} {o : Owner} → Active t o → owner_batch o ≡ []
Active-batch (active_running ts) = refl
Active-batch (active_ended e ts) = refl
Active-batch (active_halted ts) = refl

-- Nothing is taken behind a closed gate.
Free-batch : (o : Owner) {p : Bool} (w : Shared) → Free o p w → w.gate ≡ false → owner_batch o ≡ []
Free-batch (next ts) w h g = refl
Free-batch (reporting_none ts) w h g = refl
Free-batch (halted ts) w h g = refl
Free-batch (logged kept t ts) w h g = refl
Free-batch (claimed kept t ts) w h g = refl
Free-batch (warned t ts) w h g = refl
Free-batch (announced t ts) w h g = refl
Free-batch (opened t ts) w h g = refl
Free-batch (framed t ts) w h g = refl
Free-batch (running t ts) w h g = refl
Free-batch (ended e t ts) w h g = refl
Free-batch (draining e t ts erase_due) w h g = refl
Free-batch (draining e t ts result_due) w h g = refl
Free-batch (draining e t ts taking) w h g = refl
Free-batch (draining e t ts drain_done) w h g = refl
Free-batch (draining e t ts (writing ms)) w h g = absurd (false≢true (sym g ∙ h.opens))
Free-batch (reporting f ts) w h g = refl
Free-batch (returned r) w h g = refl

Taken-batch : (d : Drain) (w : Shared) → Taken (open_of d) w → w.gate ≡ false → batch d ≡ []
Taken-batch erase_due w h g = refl
Taken-batch result_due w h g = refl
Taken-batch taking w h g = refl
Taken-batch drain_done w h g = refl
Taken-batch (writing ms) w h g = absurd (false≢true (sym g ∙ h.opens))

pub Parked-batch : {was : Option String} {o : Owner} → Parked was o → owner_batch o ≡ []
Parked-batch (parked_next ts) = refl
Parked-batch (parked_none ts) = refl
Parked-batch (parked_logged k t ts) = refl
Parked-batch (parked_reporting f ts) = refl
Parked-batch (parked_returned o) = refl
Parked-batch (parked_halted t ts) = refl
Parked-batch (parked_active a) = Active-batch a

pub held_none :
    (o : Owner) (wt : Watcher) (w : Shared)
    → Consistent o wt w
    → is_over wt ≡ false
    → w.gate ≡ false
    → held o wt ≡ []
held_none o waiting w h v g = append-nil (owner_batch o) ∙ Free-batch o w h g
held_none o blocked w h v g = append-nil (owner_batch o) ∙ Free-batch o w h g
held_none o (interrupting t d) w (h, a) v g =
    ap₂ (λ x y. x ++ y) (Active-batch a) (Taken-batch d w h g)
held_none o (dying t) w (h, a) v g = append-nil (owner_batch o) ∙ Parked-batch a
held_none o (died t) w h v g = absurd (false≢true (sym v))
held_none o (killed was) w h v g = absurd (false≢true (sym v))
held_none o gone w (h, done_returned r) v g = refl

module _ (tty : Bool) where
  heard-announce : (b : List ℕ) (t : String) (w : Shared) → heard b (announce tty t w) ≡ heard b w
  unfolding announce write_line
  heard-announce b t w =
      if_intro (λ v. heard b v ≡ heard b w) tty w
        (record w { stream = w.stream ++ line_started t ∷ [] }) (λ e. refl) (λ e. simp heard_laws)

  heard-draw_frame : (b : List ℕ) (w : Shared) → heard b (draw_frame tty w) ≡ heard b w
  unfolding draw_frame write_line
  heard-draw_frame b w =
      if_intro (λ v. heard b v ≡ heard b w) tty
        (record w { stream = w.stream ++ frame_drawn ∷ []; ticking = true }) w
        (λ e. simp heard_laws) (λ e. refl)

  heard-leave_task :
      (d : Drain) (e : Ending) (t : String) (ts : List String) (b : List ℕ) (st : TaskState)
      (w : Shared)
      → batch d ≡ []
      → heard
          (owner_batch (leave_task d e t ts (leave_from st w)).0 ++ b)
          (leave_task d e t ts (leave_from st w)).1
        ≡ heard b w
  unfolding leave_task leave_from
  heard-leave_task d e t ts b task_interrupted w q = refl
  heard-leave_task d e t ts b task_closed w q = ap (λ x. heard (x ++ b) w) q
  heard-leave_task d e t ts b task_starting w q = ap (λ x. heard (x ++ b) w) q
  heard-leave_task d e t ts b task_running w q = ap (λ x. heard (x ++ b) w) q
  heard-leave_task d e t ts b task_draining w q = ap (λ x. heard (x ++ b) w) q

  pub batch-first_drain : batch (first_drain tty) ≡ []
  unfolding first_drain
  batch-first_drain = if_intro (λ d. batch d ≡ []) tty erase_due result_due (λ e. refl) (λ e. refl)

  heard-make_log :
      (l : LogMade) (t : String) (ts : List String) → owner_batch (make_log l t ts) ≡ []
  unfolding make_log
  heard-make_log log_kept t ts = refl
  heard-make_log log_null t ts = refl
  heard-make_log log_none t ts = refl

  heard-claim_task :
      (k : Bool) (t : String) (ts : List String) (b : List ℕ) (w : Shared)
      → heard (owner_batch (claim_task k t ts (claim w)).0 ++ b) (claim_task k t ts (claim w)).1
        ≡ heard b w
  unfolding claim_task claim
  heard-claim_task k t ts b w =
      if_intro
        (λ r. heard (owner_batch (claim_task k t ts r).0 ++ b) (claim_task k t ts r).1 ≡ heard b w)
        (claimable w.state w.pending) (true, record w { state = task_starting }) (false, w)
        (λ e. refl) (λ e. refl)

  after-batch : (e : Ending) (t : String) (ts : List String) → owner_batch (after e t ts) ≡ []
  unfolding after
  after-batch ended_ok t ts = refl
  after-batch ended_err t ts = refl
  after-batch ended_panic t ts = refl

  heard-settle_after :
      (e : Ending) (t : String) (ts : List String) (d : Drain) (w : Shared)
      → heard (owner_batch (settle_after e t ts (d, w)).0) (settle_after e t ts (d, w)).1
        ≡ heard (batch d) w
  unfolding settle_after settle_task
  heard-settle_after e t ts erase_due w = refl
  heard-settle_after e t ts result_due w = refl
  heard-settle_after e t ts taking w = refl
  heard-settle_after e t ts (writing ms) w = refl
  heard-settle_after e t ts drain_done w = ap (λ x. heard x w) (after-batch e t ts)

  pub heard-owner_step :
      (env : Env) (o : Owner) (wt : Watcher) (w : Shared)
      → Consistent o wt w
      → is_over wt ≡ false
      → heard (held (owner_step tty env o w).0 wt) (owner_step tty env o w).1 ≡ heard (held o wt) w
  unfolding owner_step leave publish
  heard-owner_step env (next []) wt w h v = refl
  heard-owner_step env (next (t ∷ ts)) wt w h v =
      ap (λ x. heard (x ++ watcher_batch wt) w) (heard-make_log env.log t ts)
  heard-owner_step env (logged kept t ts) wt w h v = heard-claim_task kept t ts (watcher_batch wt) w
  heard-owner_step env (claimed kept t ts) wt w h v = heard-report_loss kept (watcher_batch wt) w
  heard-owner_step env (warned t ts) wt w h v = heard-announce (watcher_batch wt) t w
  heard-owner_step env (announced t ts) wt w h v = refl
  heard-owner_step env (opened t ts) wt w h v = heard-draw_frame (watcher_batch wt) w
  heard-owner_step env (framed t ts) wt w h v = refl
  heard-owner_step env (running t ts) wt w h v = refl
  heard-owner_step env (ended e t ts) wt w h v =
      heard-leave_task (first_drain tty) e t ts (watcher_batch wt) w.state w batch-first_drain
  heard-owner_step env (draining e t ts d) wt w h v =
      let l = line_result (ending_state e) t in
      let q = draining_alone e t ts d wt w h v in
      ap
        (λ b.
          heard (owner_batch (settle_after e t ts (drain l d w)).0 ++ b)
            (settle_after e t ts (drain l d w)).1)
        q
      ∙ ap (λ b. heard b (settle_after e t ts (drain l d w)).1) (append-nil _)
      ∙ heard-settle_after e t ts (drain l d w).0 (drain l d w).1
      ∙ heard-drain d l w refl
      ∙ sym (ap (λ b. heard (batch d ++ b) w) q ∙ ap (λ b. heard b w) (append-nil (batch d)))
  heard-owner_step env (reporting f []) wt w h v = refl
  heard-owner_step env (reporting f (t ∷ ts)) wt w h v = simp heard_laws
  heard-owner_step env (reporting_none []) wt w h v = refl
  heard-owner_step env (reporting_none (t ∷ ts)) wt w h v = simp heard_laws
  heard-owner_step env (halted ts) wt w h v = refl
  heard-owner_step env (returned o) wt w h v = refl
