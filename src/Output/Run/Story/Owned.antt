-- ===== src/Output/Run/Story/Owned.antt =====
-- The owner's steps, and the story.
use mathlib.Core.List.{append-nil}
use workspace_cli.Output.Run.{
  Drain, Ending, Env, LogMade, Owner, Shared, Watcher, announced, blocked, claim, claim_task,
  claimable, claimed, died, drain, draining, dying, ended, ending_state, frame_drawn, framed, gone,
  halted, interrupting, killed, leave, leave_from, leave_task, line_result, line_started, log_kept,
  log_lost, log_none, log_null, logged, make_log, next, opened, publish, report_loss, reporting,
  reporting_none, returned, run_failed, run_ok, running, task_interrupted, task_running,
  task_starting, waiting, warned, write_line,
}
use workspace_cli.Output.Run.Agree.{Consistent, active_ended, parked_active}
use workspace_cli.Output.Run.Moves.{announce, draw_frame, first_drain, is_over, owner_step}
use workspace_cli.Output.Run.Results.{
  Entry, collect-skip, collect-write, drained_by, finished, idle_of, result_of, start_of,
  watcher_entry, written_entry,
}
use workspace_cli.Output.Run.Story.{
  Stage, Story, Story-drain, Story-idle, Story-moves, Story-settle_after, Story-skip,
}
use workspace_cli.Prelude.{
  [], Bool, List, String, ap, false, false≢true, if_intro, inl, inr, none, refl, some, subst, sym,
  true, ◌++◌, ◌||◌, ◌∙◌, ◌∷◌, ◌≡◌, ◌⊎◌,
}

-- While the owner drains, no other task's entry is due, and the watcher has drained nothing.
draining_entry :
    (e : Ending) (t : String) (ts : List String) (d : Drain) (wt : Watcher) (w : Shared)
    → Consistent (draining e t ts d) wt w
    → is_over wt ≡ false
    → watcher_entry wt ≡ []
draining_entry e t ts d waiting w h v = refl
draining_entry e t ts d blocked w h v = refl
draining_entry e t ts d gone w h v = refl
draining_entry e t ts d (interrupting u f) w (h, a) v = elim a [ ]
draining_entry e t ts d (dying none) w h v = refl
draining_entry e t ts d (dying (some u)) w (h, parked_active a) v = elim a [ ]
draining_entry e t ts d (died u) w h v = absurd (false≢true (sym v))
draining_entry e t ts d (killed was) w h v = absurd (false≢true (sym v))

logged_drained :
    (k : Bool) (t : String) (ts : List String) (wt : Watcher) (w : Shared)
    → Consistent (logged k t ts) wt w
    → is_over wt ≡ false
    → drained_by wt ≡ []
logged_drained k t ts waiting w h v = refl
logged_drained k t ts blocked w h v = refl
logged_drained k t ts gone w h v = refl
logged_drained k t ts (interrupting u f) w (h, a) v = elim a [ ]
logged_drained k t ts (dying none) w h v = refl
logged_drained k t ts (dying (some u)) w (h, parked_active a) v = elim a [ ]
logged_drained k t ts (died u) w h v = absurd (false≢true (sym v))
logged_drained k t ts (killed was) w h v = absurd (false≢true (sym v))

-- An owner that leaves a task finds it running, or drained by the watcher.
ended_drained :
    (e : Ending) (t : String) (ts : List String) (wt : Watcher) (w : Shared)
    → Consistent (ended e t ts) wt w
    → is_over wt ≡ false
    → (w.state ≡ task_running) ⊎ ((w.state ≡ task_interrupted) × (drained_by wt ≡ t ∷ []))
ended_drained e t ts waiting w h v = inl h.at
ended_drained e t ts blocked w h v = inl h.at
ended_drained e t ts gone w (h, a) v = elim a [ ]
ended_drained e t ts (interrupting u f) w (h, active_ended e' ts') v = inr (h.at, refl)
ended_drained e t ts (dying none) w (h, a) v = elim a [ ]
ended_drained e t ts (dying (some u)) w (h, parked_active (active_ended e' ts')) v =
    inr (h.at, refl)
ended_drained e t ts (died u) w h v = absurd (false≢true (sym v))
ended_drained e t ts (killed was) w h v = absurd (false≢true (sym v))

module _ (tty : Bool) (ts₀ : List String) where
  abbrev Told : Owner → Watcher → Shared → Type 0
  Told o wt w = Story tty ts₀ o wt w.stream

  Told-make_log :
      (l : LogMade) (t : String) (ts : List String) (wt : Watcher) (w : Shared)
      → Told (next (t ∷ ts)) wt w
      → Told (make_log l t ts) wt w
  unfolding make_log
  Told-make_log log_kept t ts wt w h =
      Story-moves (next (t ∷ ts)) (logged true t ts) wt wt refl refl refl refl (λ q. q) h
  Told-make_log log_null t ts wt w h =
      Story-moves (next (t ∷ ts)) (logged false t ts) wt wt refl refl refl refl (λ q. q) h
  Told-make_log log_none t ts wt w h =
      Story-moves (next (t ∷ ts)) (reporting_none (t ∷ ts)) wt wt refl refl refl refl (λ q. tt) h

  Told-claim_task :
      (k : Bool) (t : String) (ts : List String) (wt : Watcher) (w : Shared)
      → drained_by wt ≡ []
      → Told (logged k t ts) wt w
      → Told (claim_task k t ts (claim w)).0 wt (claim_task k t ts (claim w)).1
  unfolding claim_task claim
  Told-claim_task k t ts wt w q h =
      if_intro (λ r. Told (claim_task k t ts r).0 wt (claim_task k t ts r).1)
        (claimable w.state w.pending) (true, record w { state = task_starting }) (false, w)
        (λ c. Story-moves (logged k t ts) (claimed k t ts) wt wt refl refl refl refl (λ z. z) h)
        (λ c. Story-moves (logged k t ts) (halted (t ∷ ts)) wt wt refl refl refl q (λ z. z) h)

  Told-report_loss :
      (k : Bool) (o : Owner) (wt : Watcher) (w : Shared) → Told o wt w → Told o wt (report_loss k w)
  unfolding report_loss write_line
  Told-report_loss k o wt w h =
      if_intro (λ v. Told o wt v) (k || w.lost) w
        (record w { stream = w.stream ++ log_lost ∷ []; lost = true }) (λ c. h)
        (λ c. Story-skip log_lost refl refl refl h)

  Told-draw_frame :
      (o : Owner) (wt : Watcher) (w : Shared) → Told o wt w → Told o wt (draw_frame tty w)
  unfolding draw_frame write_line
  Told-draw_frame o wt w h =
      if_intro (λ v. Told o wt v) tty
        (record w { stream = w.stream ++ frame_drawn ∷ []; ticking = true }) w
        (λ c. Story-skip frame_drawn refl refl refl h) (λ c. h)

  Told-leave_task :
      (d : Drain) (e : Ending) (t : String) (ts : List String) (wt : Watcher) (w : Shared)
      → written_entry d (finished (ending_state e) t) ≡ []
      → (w.state ≡ task_running) ⊎ ((w.state ≡ task_interrupted) × (drained_by wt ≡ t ∷ []))
      → Told (ended e t ts) wt w
      → Told (leave_task d e t ts (leave w)).0 wt (leave_task d e t ts (leave w)).1
  unfolding leave_task leave leave_from
  Told-leave_task d e t ts wt w q (inl s) h =
      subst
        (λ st.
          Told (leave_task d e t ts (leave_from st w)).0 wt
            (leave_task d e t ts (leave_from st w)).1)
        (sym s)
        (Story-moves (ended e t ts) (draining e t ts d) wt wt refl refl
          (ap (λ x. x ++ watcher_entry wt) q) refl (λ z. z) h)
  Told-leave_task d e t ts wt w q (inr (s, b)) h =
      subst
        (λ st.
          Told (leave_task d e t ts (leave_from st w)).0 wt
            (leave_task d e t ts (leave_from st w)).1)
        (sym s) (Story-moves (ended e t ts) (halted (t ∷ ts)) wt wt refl refl refl b (λ z. z) h)

owner-Stage :
    (e : Ending) (t : String) (ts : List String) (wt : Watcher)
    → watcher_entry wt ≡ []
    → Stage
        (λ d. (draining e t ts d, wt))
        (finished (ending_state e) t)
        (line_result (ending_state e) t)
owner-Stage e t ts wt n = record {
  failed = λ d f. refl;
  rests = λ d f. refl;
  begins = λ d f. refl;
  quiets = λ d f ids q. q;
  entries = λ d. ap (λ x. written_entry d (finished (ending_state e) t) ++ x) n ∙ append-nil _;
  gives = refl;
  idles = refl;
  begs = refl;
}

-- A start line, off a terminal.
Story-announce :
    (tty : Bool) {ts₀ : List String} (t : String) (ts : List String) (wt : Watcher) (w : Shared)
    → Story tty ts₀ (warned t ts) wt w.stream
    → Story tty ts₀ (announced t ts) wt (announce tty t w).stream
unfolding announce write_line
Story-announce true t ts wt w h = record {
  passes = h.passes;
  results = h.results;
  tasks = h.tasks;
  quiet = h.quiet;
  starts = h.starts;
}
Story-announce false t ts wt w h = record {
  passes = h.passes;
  results = collect-skip result_of w.stream (line_started t) refl ∙ h.results;
  tasks =
      h.tasks
      ∙ ap (λ x. h.passes ++ (x ++ t ∷ ts))
          (sym (collect-skip idle_of w.stream (line_started t) refl));
  quiet = collect-skip idle_of w.stream (line_started t) refl ∙ h.quiet;
  starts =
      collect-write start_of w.stream (line_started t)
      ∙ ap (λ x. x ++ t ∷ []) (h.starts ∙ append-nil h.passes);
}

pub first_entry : (tty : Bool) (x : Entry) → written_entry (first_drain tty) x ≡ []
unfolding first_drain
first_entry true x = refl
first_entry false x = refl

module _ (tty : Bool) (ts₀ : List String) where
  pub Story-owner_step :
      (env : Env) (o : Owner) (wt : Watcher) (w : Shared)
      → Consistent o wt w
      → is_over wt ≡ false
      → Story tty ts₀ o wt w.stream
      → Story tty ts₀ (owner_step tty env o w).0 wt (owner_step tty env o w).1.stream
  unfolding owner_step publish
  Story-owner_step env (next []) wt w c v h =
      Story-moves (next []) (returned run_ok) wt wt refl refl refl refl (λ q. q) h
  Story-owner_step env (next (t ∷ ts)) wt w c v h = Told-make_log tty ts₀ env.log t ts wt w h
  Story-owner_step env (logged kept t ts) wt w c v h =
      Told-claim_task tty ts₀ kept t ts wt w (logged_drained kept t ts wt w c v) h
  Story-owner_step env (claimed kept t ts) wt w c v h =
      Told-report_loss tty ts₀ kept (warned t ts) wt w
        (Story-moves (claimed kept t ts) (warned t ts) wt wt refl refl refl refl (λ q. q) h)
  Story-owner_step env (warned t ts) wt w c v h = Story-announce tty t ts wt w h
  Story-owner_step env (announced t ts) wt w c v h =
      Story-moves (announced t ts) (opened t ts) wt wt refl refl refl refl (λ q. q) h
  Story-owner_step env (opened t ts) wt w c v h =
      Told-draw_frame tty ts₀ (framed t ts) wt w
        (Story-moves (opened t ts) (framed t ts) wt wt refl refl refl refl (λ q. q) h)
  Story-owner_step env (framed t ts) wt w c v h =
      Story-moves (framed t ts) (running t ts) wt wt refl refl refl refl (λ q. q) h
  Story-owner_step env (running t ts) wt w c v h =
      Story-moves (running t ts) (ended env.ending t ts) wt wt refl refl refl refl (λ q. q) h
  Story-owner_step env (ended e t ts) wt w c v h =
      Told-leave_task tty ts₀ (first_drain tty) e t ts wt w (first_entry tty _)
        (ended_drained e t ts wt w c v) h
  Story-owner_step env (draining e t ts d) wt w c v h =
      let n = draining_entry e t ts d wt w c v in
      let r = drain (line_result (ending_state e) t) d w in
      Story-settle_after e t ts r.0 wt r.1 n (Story-drain (owner-Stage e t ts wt n) d w h)
  Story-owner_step env (reporting f []) wt w c v h =
      Story-moves (reporting f []) (returned (run_failed (some f))) wt wt refl refl refl refl
        (λ q. tt) h
  Story-owner_step env (reporting f (t ∷ ts)) wt w c v h =
      Story-idle (reporting f (t ∷ ts)) (reporting f ts) t refl refl refl refl (λ ids. tt) h
  Story-owner_step env (reporting_none []) wt w c v h =
      Story-moves (reporting_none []) (returned (run_failed none)) wt wt refl refl refl refl
        (λ q. tt) h
  Story-owner_step env (reporting_none (t ∷ ts)) wt w c v h =
      Story-idle (reporting_none (t ∷ ts)) (reporting_none ts) t refl refl refl refl (λ ids. tt) h
  Story-owner_step env (halted ts) wt w c v h = h
  Story-owner_step env (returned o) wt w c v h = h
