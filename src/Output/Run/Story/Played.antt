-- ===== src/Output/Run/Story/Played.antt =====
-- The story of a run of internal/output/run.go, by its steps.
use workspace_cli.Output.Run.{Owner, Shared, Watcher, frame_drawn, said, write_line}
use workspace_cli.Output.Run.Agree.Steps.{Agreed, move-Agreed, start-Agreed}
use workspace_cli.Output.Run.Moves.{
  Move, System, again, is_over, move, own, play, redraw, say, signal, speak, start, step, stop,
  tick, watch,
}
use workspace_cli.Output.Run.Story.{Story, Story-skip}
use workspace_cli.Output.Run.Story.Owned.{Story-owner_step}
use workspace_cli.Output.Run.Story.Watched.{
  Story-catch_signal, Story-quit, Story-second_signal, Story-watcher_step,
}
use workspace_cli.Prelude.{
  [], Bool, Bool-cases, List, String, false, if_false, if_intro, if_true, if◌then◌else◌, inl, inr,
  refl, subst, sym, true, ℕ, ◌++◌, ◌∷◌, ◌≡◌,
}

pub record Reported (tty : Bool) (ts : List String) (s : System) : Type 0 where
  pub agreed : Agreed s
  pub story : Story tty ts s.owner s.watcher s.shared.stream

Story-redraw :
    {tty : Bool} {ts : List String} (o : Owner) (wt : Watcher) (w : Shared)
    → Story tty ts o wt w.stream
    → Story tty ts o wt (redraw w).stream
unfolding redraw write_line
Story-redraw {tty} {ts} o wt w h =
    if_intro (λ v. Story tty ts o wt v.stream) w.ticking
      (record w { stream = w.stream ++ frame_drawn ∷ [] }) w
      (λ c. Story-skip frame_drawn refl refl refl h) (λ c. h)

Story-say :
    {tty : Bool} {ts : List String} (m : ℕ) (o : Owner) (wt : Watcher) (w : Shared)
    → Story tty ts o wt w.stream
    → Story tty ts o wt (say m w).stream
unfolding say write_line
Story-say {tty} {ts} m o wt w h =
    if_intro (λ v. Story tty ts o wt v.stream) w.gate (record w { queue = w.queue ++ m ∷ [] })
      (record w { stream = w.stream ++ said m ∷ [] }) (λ c. h)
      (λ c. Story-skip (said m) refl refl refl h)

module _ (tty : Bool) {ts₀ : List String} where
  move-Story :
      (m : Move) (s : System)
      → Reported tty ts₀ s
      → is_over s.watcher ≡ false
      → Story tty ts₀ (move tty m s).owner (move tty m s).watcher (move tty m s).shared.stream
  unfolding move
  move-Story (own env) s h v =
      Story-owner_step tty ts₀ env s.owner s.watcher s.shared h.agreed.0 v h.story
  move-Story watch s h v = Story-watcher_step tty s.owner s.watcher s.shared h.agreed.0 h.story
  move-Story signal s h v = Story-catch_signal tty s.owner s.watcher s.shared h.agreed.0 h.story
  move-Story again s h v = Story-second_signal s.owner s.watcher h.story
  move-Story stop s h v = Story-quit s.owner s.watcher h.story
  move-Story tick s h v = Story-redraw s.owner s.watcher s.shared h.story
  move-Story (speak m) s h v = Story-say m s.owner s.watcher s.shared h.story

  pub step-Reported : (m : Move) (s : System) → Reported tty ts₀ s → Reported tty ts₀ (step tty m s)
  unfolding step
  step-Reported m s h = elim (Bool-cases (is_over s.watcher)) [
    | inl o ↦ subst (Reported tty ts₀) (sym (if_true (is_over s.watcher) s (move tty m s) o)) h
    | inr o ↦
        subst (Reported tty ts₀) (sym (if_false (is_over s.watcher) s (move tty m s) o))
          (record { agreed = move-Agreed tty m s h.agreed; story = move-Story m s h o })
  ]

  play-Reported_from :
      (ms : List Move) (s : System) → Reported tty ts₀ s → Reported tty ts₀ (play tty ms s)
  unfolding play
  play-Reported_from [] s h = h
  play-Reported_from (m ∷ ms) s h = play-Reported_from ms (step tty m s) (step-Reported m s h)

no_starts : (tty : Bool) → ◌≡◌ {A = List String} [] (if tty then [] else [])
no_starts true = refl
no_starts false = refl

pub play-Reported :
    (tty : Bool) (ms : List Move) (ts : List String) → Reported tty ts (play tty ms (start ts))
play-Reported tty ms ts = play-Reported_from tty ms (start ts) (record {
  agreed = start-Agreed tty ts;
  story = record {
    passes = [];
    results = refl;
    tasks = refl;
    quiet = refl;
    starts = no_starts tty;
  };
})
