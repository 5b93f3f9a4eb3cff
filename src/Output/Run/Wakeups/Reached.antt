-- ===== src/Output/Run/Wakeups/Reached.antt =====
-- The watcher's wait, in a run.
use workspace_cli.Output.Run.{
  Owner, Shared, Watcher, blocked, died, dying, gone, interrupting, killed, returned, waiting,
  write_line,
}
use workspace_cli.Output.Run.Moves.{
  Move, System, again, is_over, move, own, play, quit, redraw, say, second_signal, signal, speak,
  start, step, stop, tick, watch,
}
use workspace_cli.Output.Run.Wakeups.{
  SameWait, WokenIn, catch_signal-WokenIn, moved, owner_step-WokenIn, watcher_step-WokenIn,
}
use workspace_cli.Prelude.{Bool, List, String, [], if_intro, refl, ℕ, ◌∷◌}

second_signal-WokenIn : (wt : Watcher) (w : Shared) → WokenIn wt w → WokenIn (second_signal wt) w
unfolding second_signal
second_signal-WokenIn waiting w h = tt
second_signal-WokenIn blocked w h = tt
second_signal-WokenIn (interrupting t d) w h = tt
second_signal-WokenIn (dying t) w h = tt
second_signal-WokenIn (died t) w h = tt
second_signal-WokenIn (killed was) w h = tt
second_signal-WokenIn gone w h = tt

quit-WokenIn : (o : Owner) (wt : Watcher) (w : Shared) → WokenIn wt w → WokenIn (quit o wt) w
unfolding quit
quit-WokenIn (returned r) waiting w h = tt
quit-WokenIn (returned r) blocked w h = h
quit-WokenIn (returned r) (interrupting t d) w h = tt
quit-WokenIn (returned r) (dying t) w h = tt
quit-WokenIn (returned r) (died t) w h = tt
quit-WokenIn (returned r) (killed was) w h = tt
quit-WokenIn (returned r) gone w h = tt
quit-WokenIn o wt w h = h

carried : (wt : Watcher) (w v : Shared) → SameWait w v → WokenIn wt w → WokenIn wt v
carried blocked w v q h = moved w v q h
carried waiting w v q h = tt
carried gone w v q h = tt
carried (killed was) w v q h = tt
carried (interrupting t d) w v q h = tt
carried (dying was) w v q h = tt
carried (died was) w v q h = tt

redraw-SameWait : (w : Shared) → SameWait w (redraw w)
unfolding redraw write_line
redraw-SameWait w =
    if_intro (λ (v : Shared). SameWait w v) w.ticking _ _ (λ _. (refl, refl)) (λ _. (refl, refl))

say-SameWait : (m : ℕ) (w : Shared) → SameWait w (say m w)
unfolding say write_line
say-SameWait m w =
    if_intro (λ (v : Shared). SameWait w v) w.gate _ _ (λ _. (refl, refl)) (λ _. (refl, refl))

abbrev pub Woken : System → Type 0
Woken s = WokenIn s.watcher s.shared

module _ (tty : Bool) where
  move-Woken : (m : Move) (s : System) → Woken s → Woken (move tty m s)
  unfolding move
  move-Woken (own env) s h = owner_step-WokenIn tty env s.owner s.watcher s.shared h
  move-Woken watch s h = watcher_step-WokenIn tty s.watcher s.shared h
  move-Woken signal s h = catch_signal-WokenIn tty s.watcher s.shared h
  move-Woken again s h = second_signal-WokenIn s.watcher s.shared h
  move-Woken stop s h = quit-WokenIn s.owner s.watcher s.shared h
  move-Woken tick s h = carried s.watcher s.shared (redraw s.shared) (redraw-SameWait s.shared) h
  move-Woken (speak m) s h = carried s.watcher s.shared (say m s.shared) (say-SameWait m s.shared) h

  pub step-Woken : (m : Move) (s : System) → Woken s → Woken (step tty m s)
  unfolding step
  step-Woken m s h =
      if_intro Woken (is_over s.watcher) s (move tty m s) (λ _. h) (λ _. move-Woken m s h)

  play-Woken_from : (ms : List Move) (s : System) → Woken s → Woken (play tty ms s)
  unfolding play
  play-Woken_from [] s h = h
  play-Woken_from (m ∷ ms) s h = play-Woken_from ms (step tty m s) (step-Woken m s h)

  pub play-Woken :
      (ms : List Move) (ts : List String)
      → WokenIn (play tty ms (start ts)).watcher (play tty ms (start ts)).shared
  play-Woken ms ts = play-Woken_from ms (start ts) tt
