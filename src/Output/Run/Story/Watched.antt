-- ===== src/Output/Run/Story/Watched.antt =====
-- The watcher's steps, and the story.
use workspace_cli.Output.Run.{
  Drain, Line, Owner, Shared, TaskState, Watcher, announced, blocked, claimed, die_after,
  drain_done, draining, dying, ended, erase_due, framed, halted, interrupting, line_interrupted,
  logged, next, opened, reporting, reporting_none, result_due, returned, run_failed, run_ok,
  run_panicked, running, taking, task_closed, task_draining, task_interrupted, task_running,
  task_starting, warned, writing, died, drain, gone, killed, waiting,
}
use workspace_cli.Output.Run.Agree.{
  Active, active_ended, active_halted, active_running, Consistent, state_of,
}
use workspace_cli.Output.Run.Moves.{
  take_over, catch_signal, quit, second_signal, watcher_step, wake,
}
use workspace_cli.Output.Run.Results.{
  begun, drained_by, interrupted, owner_entry, watcher_entry, written_entry,
}
use workspace_cli.Output.Run.Story.{Stage, Story, Story-moves, Story-drain}
use workspace_cli.Output.Run.Story.Owned.{first_entry}
use workspace_cli.Prelude.{
  [], Bool, List, String, ap, none, refl, some, ◌++◌, ◌≡◌, subst, sym, true, ◌∙◌, false,
}

Active-entry : {t : String} {o : Owner} → Active t o → owner_entry o ≡ []
Active-entry (active_running ts) = refl
Active-entry (active_ended e ts) = refl
Active-entry (active_halted ts) = refl

begun_same :
    (o : Owner) (wt wt' : Watcher) → drained_by wt ≡ drained_by wt' → begun o wt ≡ begun o wt'
begun_same (next ts) wt wt' q = refl
begun_same (reporting_none ts) wt wt' q = refl
begun_same (halted ts) wt wt' q = q
begun_same (logged k t ts) wt wt' q = refl
begun_same (claimed k t ts) wt wt' q = refl
begun_same (warned t ts) wt wt' q = refl
begun_same (announced t ts) wt wt' q = refl
begun_same (opened t ts) wt wt' q = refl
begun_same (framed t ts) wt wt' q = refl
begun_same (running t ts) wt wt' q = refl
begun_same (ended e t ts) wt wt' q = refl
begun_same (draining e t ts d) wt wt' q = refl
begun_same (reporting f ts) wt wt' q = refl
begun_same (returned run_ok) wt wt' q = refl
begun_same (returned (run_failed none)) wt wt' q = refl
begun_same (returned (run_failed (some f))) wt wt' q = refl
begun_same (returned (run_panicked t ts)) wt wt' q = refl

watcher-Stage :
    (o : Owner) (t : String)
    → Active t o
    → Stage (λ d. (o, interrupting t d)) (interrupted t) (line_interrupted t)
watcher-Stage o t a = record {
  failed = λ d f. refl;
  rests = λ d f. refl;
  begins = λ d f. begun_same o (interrupting t d) (interrupting t f) refl;
  quiets = λ d f ids q. q;
  entries = λ d. ap (λ x. x ++ written_entry d (interrupted t)) (Active-entry a);
  gives = refl;
  idles = refl;
  begs = refl;
}

-- The watcher moves alone.
Story-watch :
    {tty : Bool} {ts : List String} (o : Owner) (wt wt' : Watcher) {ls : List Line}
    → watcher_entry wt' ≡ watcher_entry wt
    → begun o wt' ≡ begun o wt
    → Story tty ts o wt ls
    → Story tty ts o wt' ls
Story-watch o wt wt' q b h =
    Story-moves o o wt wt' refl refl (ap (λ x. owner_entry o ++ x) q) b (λ z. z) h

Story-die_after :
    {tty : Bool} {ts : List String} (o : Owner) (t : String) (d : Drain) (w : Shared)
    → Story tty ts o (interrupting t d) w.stream
    → Story tty ts o (die_after t (d, w)).0 (die_after t (d, w)).1.stream
unfolding die_after
Story-die_after o t erase_due w h = h
Story-die_after o t result_due w h = h
Story-die_after o t taking w h = h
Story-die_after o t (writing ms) w h = h
Story-die_after o t drain_done w h =
    Story-watch o (interrupting t drain_done) (dying (some t)) refl
      (begun_same o (dying (some t)) (interrupting t drain_done) refl) h

module _ (tty : Bool) where
  take_over-entry : (st : TaskState) (w : Shared) → watcher_entry (take_over tty st w).0 ≡ []
  unfolding take_over
  take_over-entry task_starting w = refl
  take_over-entry task_draining w = refl
  take_over-entry task_running w = first_entry tty (interrupted w.cur)
  take_over-entry task_closed w = refl
  take_over-entry task_interrupted w = refl

  take_over-stream : (st : TaskState) (w : Shared) → (take_over tty st w).1.stream ≡ w.stream
  unfolding take_over
  take_over-stream task_starting w = refl
  take_over-stream task_draining w = refl
  take_over-stream task_running w = refl
  take_over-stream task_closed w = refl
  take_over-stream task_interrupted w = refl

  take_over-begun :
      (o : Owner) (w : Shared) → begun o (take_over tty (state_of o) w).0 ≡ begun o blocked
  unfolding take_over
  take_over-begun (next ts) w = refl
  take_over-begun (reporting_none ts) w = refl
  take_over-begun (halted ts) w = refl
  take_over-begun (logged k t ts) w = refl
  take_over-begun (claimed k t ts) w = refl
  take_over-begun (warned t ts) w = refl
  take_over-begun (announced t ts) w = refl
  take_over-begun (opened t ts) w = refl
  take_over-begun (framed t ts) w = refl
  take_over-begun (running t ts) w = refl
  take_over-begun (ended e t ts) w = refl
  take_over-begun (draining e t ts d) w = refl
  take_over-begun (reporting f ts) w = refl
  take_over-begun (returned run_ok) w = refl
  take_over-begun (returned (run_failed none)) w = refl
  take_over-begun (returned (run_failed (some f))) w = refl
  take_over-begun (returned (run_panicked t ts)) w = refl

  Story-take_over :
      {ts₀ : List String} (o : Owner) (wt : Watcher) (w : Shared)
      → watcher_entry wt ≡ []
      → drained_by wt ≡ []
      → Story tty ts₀ o wt w.stream
      → (st : TaskState) → st ≡ state_of o
      → Story tty ts₀ o (take_over tty st w).0 (take_over tty st w).1.stream
  Story-take_over {ts₀} o wt w n b h st q =
      subst (Story tty ts₀ o (take_over tty st w).0) (sym (take_over-stream st w)) (
        Story-watch o wt (take_over tty st w).0 (take_over-entry st w ∙ sym n)
          (ap (λ x. begun o (take_over tty x w).0) q
            ∙ take_over-begun o w
            ∙ begun_same o blocked wt (sym b))
          h)

  Story-wake :
      {ts₀ : List String} (o : Owner) (b : Bool) (w : Shared)
      → w.state ≡ state_of o
      → Story tty ts₀ o blocked w.stream
      → Story tty ts₀ o (wake tty b w).0 (wake tty b w).1.stream
  unfolding wake
  Story-wake o true w q h = Story-take_over o blocked w refl refl h w.state q
  Story-wake o false w q h = h

  pub Story-watcher_step :
      {ts₀ : List String} (o : Owner) (wt : Watcher) (w : Shared)
      → Consistent o wt w
      → Story tty ts₀ o wt w.stream
      → Story tty ts₀ o (watcher_step tty wt w).0 (watcher_step tty wt w).1.stream
  unfolding watcher_step
  Story-watcher_step o waiting w c h = h
  Story-watcher_step o blocked w c h = Story-wake o w.woken w c.at h
  Story-watcher_step o (interrupting t d) w (c, a) h =
      let r = drain (line_interrupted t) d w in
      Story-die_after o t r.0 r.1 (Story-drain (watcher-Stage o t a) d w h)
  Story-watcher_step o (dying none) w c h =
      Story-watch o (dying none) (died none) refl (begun_same o (died none) (dying none) refl) h
  Story-watcher_step o (dying (some t)) w c h =
      Story-watch o (dying (some t)) (died (some t)) refl
        (begun_same o (died (some t)) (dying (some t)) refl) h
  Story-watcher_step o (died t) w c h = h
  Story-watcher_step o (killed was) w c h = h
  Story-watcher_step o gone w c h = h

  pub Story-catch_signal :
      {ts₀ : List String} (o : Owner) (wt : Watcher) (w : Shared)
      → Consistent o wt w
      → Story tty ts₀ o wt w.stream
      → Story tty ts₀ o (catch_signal tty wt w).0 (catch_signal tty wt w).1.stream
  unfolding catch_signal
  Story-catch_signal o waiting w c h =
      Story-take_over o waiting (record w { pending = true }) refl refl h w.state c.at
  Story-catch_signal o blocked w c h = h
  Story-catch_signal o (interrupting t d) w c h = h
  Story-catch_signal o (dying t) w c h = h
  Story-catch_signal o (died t) w c h = h
  Story-catch_signal o (killed was) w c h = h
  Story-catch_signal o gone w c h = h

second_signal-entry : (wt : Watcher) → watcher_entry (second_signal wt) ≡ watcher_entry wt
unfolding second_signal
second_signal-entry waiting = refl
second_signal-entry blocked = refl
second_signal-entry (interrupting t d) = refl
second_signal-entry (dying t) = refl
second_signal-entry (died t) = refl
second_signal-entry (killed was) = refl
second_signal-entry gone = refl

second_signal-drained : (wt : Watcher) → drained_by (second_signal wt) ≡ drained_by wt
unfolding second_signal
second_signal-drained waiting = refl
second_signal-drained blocked = refl
second_signal-drained (interrupting t d) = refl
second_signal-drained (dying t) = refl
second_signal-drained (died t) = refl
second_signal-drained (killed was) = refl
second_signal-drained gone = refl

pub Story-second_signal :
    {tty : Bool} {ts : List String} (o : Owner) (wt : Watcher) {ls : List Line}
    → Story tty ts o wt ls
    → Story tty ts o (second_signal wt) ls
Story-second_signal o wt h =
    Story-watch o wt (second_signal wt) (second_signal-entry wt)
      (begun_same o (second_signal wt) wt (second_signal-drained wt)) h

pub Story-quit :
    {tty : Bool} {ts : List String} (o : Owner) (wt : Watcher) {ls : List Line}
    → Story tty ts o wt ls
    → Story tty ts o (quit o wt) ls
unfolding quit
Story-quit (returned r) waiting h =
    Story-watch (returned r) waiting gone refl (begun_same (returned r) gone waiting refl) h
Story-quit (returned r) blocked h = h
Story-quit (returned r) (interrupting t d) h = h
Story-quit (returned r) (dying t) h = h
Story-quit (returned r) (died t) h = h
Story-quit (returned r) (killed was) h = h
Story-quit (returned r) gone h = h
Story-quit o wt h = h
