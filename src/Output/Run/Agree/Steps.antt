-- ===== src/Output/Run/Agree/Steps.antt =====
-- The steps, and the agreement of the goroutines.
use workspace_cli.Output.Run.{
  Env, Owner, Shared, Watcher, blocked, died, dying, gone, interrupting, killed, returned, said,
  waiting, write_line,
}
use workspace_cli.Output.Run.Agree.{
  Consistent, Emptied, Free, Taken, Titled, open_of, done_returned,
}
use workspace_cli.Output.Run.Agree.Own.{
  Active-owner_step, Emptied-owner_step, Free-owner_step, Parked-owner_step,
}
use workspace_cli.Output.Run.Agree.Watch.{
  Consistent-catch_signal, Consistent-watcher_step, Emptied-catch_signal, Emptied-watcher_step,
}
use workspace_cli.Output.Run.Moves.{
  Move, System, again, is_over, move, own, owner_step, quit, redraw, say, second_signal, signal,
  speak, start, step, stop, tick, watch,
}
use workspace_cli.Prelude.{
  [], Bool, Bool-cases, List, String, arith, false≢true, if_false, if_intro, inl, inr, refl, subst,
  sym, ℕ, ◌++◌, ◌∙◌, ◌∷◌, ◌≡◌,
}

abbrev pub Agreed : System → Type 0
Agreed s = Consistent s.owner s.watcher s.shared × Emptied s.shared

-- What the ticker and the message helpers leave alone.
pub record SameState (w v : Shared) : Type 0 where
  pub at : v.state ≡ w.state
  pub opens : v.gate ≡ w.gate
  pub bars : v.pending ≡ w.pending
  pub titled : v.cur ≡ w.cur

Free-SameState : {o : Owner} {p : Bool} {w v : Shared} → SameState w v → Free o p w → Free o p v
Free-SameState {o} r h = record {
  at = r.at ∙ h.at;
  opens = r.opens ∙ h.opens;
  bars = r.bars ∙ h.bars;
  titled = subst (Titled o) (sym r.titled) h.titled;
}

Taken-SameState : {g : Bool} {w v : Shared} → SameState w v → Taken g w → Taken g v
Taken-SameState r h = record { at = r.at ∙ h.at; opens = r.opens ∙ h.opens; bars = r.bars ∙ h.bars }

Consistent-SameState :
    (o : Owner) (wt : Watcher) {w v : Shared}
    → SameState w v
    → Consistent o wt w
    → Consistent o wt v
Consistent-SameState o waiting r h = Free-SameState r h
Consistent-SameState o blocked r h = Free-SameState r h
Consistent-SameState o (interrupting t d) r (h, a) = (Taken-SameState r h, a)
Consistent-SameState o (dying t) r (h, a) = (Taken-SameState r h, a)
Consistent-SameState o (died t) r (h, a) = (Taken-SameState r h, a)
Consistent-SameState o (killed was) r h = Consistent-SameState o was r h
Consistent-SameState o gone r (h, a) = (Free-SameState r h, a)

pub SameState-say : (m : ℕ) (w : Shared) → SameState w (say m w)
unfolding say write_line
SameState-say m w = ground arith

pub SameState-redraw : (w : Shared) → SameState w (redraw w)
unfolding redraw write_line
SameState-redraw w = ground arith

Emptied-say : (m : ℕ) (w : Shared) → Emptied w → Emptied (say m w)
unfolding say write_line
Emptied-say m w h = elim (Bool-cases w.gate) [
  | inl g ↦ λ c. absurd (false≢true (sym c ∙ (SameState-say m w).opens ∙ g))
  | inr g ↦ λ c.
      subst (λ v. v.queue ≡ [])
        (sym (if_false w.gate (record w { queue = w.queue ++ m ∷ [] }) (write_line (said m) w) g))
        (h g)
]

Emptied-redraw : (w : Shared) → Emptied w → Emptied (redraw w)
unfolding redraw write_line
Emptied-redraw w h = ground arith

Consistent-second_signal :
    (o : Owner) (wt : Watcher) (w : Shared) → Consistent o wt w → Consistent o (second_signal wt) w
unfolding second_signal
Consistent-second_signal o waiting w h = h
Consistent-second_signal o blocked w h = h
Consistent-second_signal o (interrupting t d) w h = h
Consistent-second_signal o (dying t) w h = h
Consistent-second_signal o (died t) w h = h
Consistent-second_signal o (killed was) w h = h
Consistent-second_signal o gone w h = h

Consistent-quit :
    (o : Owner) (wt : Watcher) (w : Shared) → Consistent o wt w → Consistent o (quit o wt) w
unfolding quit
Consistent-quit (returned r) waiting w h = (h, done_returned r)
Consistent-quit (returned r) blocked w h = h
Consistent-quit (returned r) (interrupting t d) w h = h
Consistent-quit (returned r) (dying t) w h = h
Consistent-quit (returned r) (died t) w h = h
Consistent-quit (returned r) (killed was) w h = h
Consistent-quit (returned r) gone w h = h
Consistent-quit o wt w h = h

module _ (tty : Bool) where
  Consistent-owner_step :
      (env : Env) (o : Owner) (wt : Watcher) (w : Shared)
      → Consistent o wt w
      → Consistent (owner_step tty env o w).0 wt (owner_step tty env o w).1
  unfolding owner_step
  Consistent-owner_step env o waiting w h = Free-owner_step tty env o w h
  Consistent-owner_step env o blocked w h = Free-owner_step tty env o w h
  Consistent-owner_step env o (interrupting t d) w (h, a) =
      let (b, q) = Active-owner_step tty env a w h.at in (subst (Taken (open_of d)) (sym q) h, b)
  Consistent-owner_step env o (dying t) w (h, a) =
      let (b, k) = Parked-owner_step tty env a w h in (k, b)
  Consistent-owner_step env o (died t) w (h, a) =
      let (b, k) = Parked-owner_step tty env a w h in (k, b)
  Consistent-owner_step env o (killed was) w h = Consistent-owner_step env o was w h
  Consistent-owner_step env o gone w (h, done_returned r) =
      (Free-owner_step tty env (returned r) w h, done_returned r)

  pub move-Agreed : (m : Move) (s : System) → Agreed s → Agreed (move tty m s)
  unfolding move
  move-Agreed (own env) s (h, e) = (
    Consistent-owner_step env s.owner s.watcher s.shared h,
    Emptied-owner_step tty env s.owner s.shared e,
  )
  move-Agreed watch s (h, e) = (
    Consistent-watcher_step tty s.owner s.watcher s.shared h,
    Emptied-watcher_step tty s.watcher s.shared e,
  )
  move-Agreed signal s (h, e) = (
    Consistent-catch_signal tty s.owner s.watcher s.shared h,
    Emptied-catch_signal tty s.watcher s.shared e,
  )
  move-Agreed again s (h, e) = (Consistent-second_signal s.owner s.watcher s.shared h, e)
  move-Agreed stop s (h, e) = (Consistent-quit s.owner s.watcher s.shared h, e)
  move-Agreed tick s (h, e) = (
    Consistent-SameState s.owner s.watcher (SameState-redraw s.shared) h,
    Emptied-redraw s.shared e,
  )
  move-Agreed (speak m) s (h, e) = (
    Consistent-SameState s.owner s.watcher (SameState-say m s.shared) h,
    Emptied-say m s.shared e,
  )

  pub step-Agreed : (m : Move) (s : System) → Agreed s → Agreed (step tty m s)
  unfolding step
  step-Agreed m s h =
      if_intro Agreed (is_over s.watcher) s (move tty m s) (λ o. h) (λ o. move-Agreed m s h)

  pub start-Agreed : (ts : List String) → Agreed (start ts)
  start-Agreed ts = (record { at = refl; opens = refl; bars = refl; titled = tt }, λ g. refl)
