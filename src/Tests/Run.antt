-- ===== src/Tests/Run.antt =====
-- Runs of the step runner, and the theorems of internal/output/run.go at them.
use workspace_cli.Output.Run.{
  ended_err, ended_ok, frame_drawn, frame_erased, line_idle, line_interrupted, line_result,
  line_started, log_kept, said,
}
use workspace_cli.Output.Run.Finish.{IsTranscript, play-IsTranscript}
use workspace_cli.Output.Run.Finish.Ended.{IsComplete, ToldBy, is_finished, play-IsComplete}
use workspace_cli.Output.Run.Messages.{said_in}
use workspace_cli.Output.Run.Moves.{Move, own, play, signal, speak, start, stop, tick, watch}
use workspace_cli.Output.Run.Progress.{Caught, Dies, play-Dies}
use workspace_cli.Output.State.{state_fail, state_ok}
use workspace_cli.Prelude.{[], List, String, false, refl, suc, true, zero, ℕ, ◌++◌, ◌∷◌, ◌≡◌}

abbrev tasks : List String
tasks = "build" ∷ "push" ∷ []

abbrev kept_ok : Move
kept_ok = own (record { log = log_kept; ending = ended_ok })

abbrev kept_err : Move
kept_err = own (record { log = log_kept; ending = ended_err })

abbrev repeat : ℕ → Move → List Move → List Move
repeat zero m ms = ms
repeat (suc n) m ms = m ∷ repeat n m ms

-- The first task says a message, and a signal comes while it runs.
abbrev until_signal : List Move
until_signal = repeat 7 kept_ok (speak 4 ∷ signal ∷ [])

-- The drain, with a message that comes late.
abbrev until_death : List Move
until_death = repeat 7 kept_ok (speak 4 ∷ signal ∷ watch ∷ watch ∷ speak 5 ∷ repeat 7 watch [])

-- The first task fails after a message.
abbrev until_failure : List Move
until_failure = repeat 7 kept_err (speak 4 ∷ repeat 10 kept_err (stop ∷ []))

death_stream :
    (play false until_death (start tasks)).shared.stream
    ≡ line_started "build" ∷ line_interrupted "build" ∷ said 4 ∷ said 5 ∷ []
unfolding play
death_stream = refl

failure_stream :
    (play false until_failure (start tasks)).shared.stream
    ≡ line_started "build" ∷ line_result state_fail "build" ∷ said 4 ∷ line_idle "push" ∷ []
unfolding play
failure_stream = refl

-- On a terminal, with the redraws of the ticker.
framed_stream :
    (play true
      (repeat 7 kept_ok (tick ∷ kept_ok ∷ kept_ok ∷ kept_ok ∷ kept_ok ∷ []))
      (start tasks)).shared.stream
    ≡ frame_drawn ∷ frame_drawn ∷ frame_erased ∷ line_result state_ok "build" ∷ []
unfolding play
framed_stream = refl

play-IsTranscript_example :
    ((rest : List ℕ) × ((play false until_death (start tasks)).spoken
        ≡ said_in (play false until_death (start tasks)).shared.stream ++ rest))
    × IsTranscript tasks (play false until_death (start tasks)).shared.stream
play-IsTranscript_example = play-IsTranscript false until_death tasks

death_finished : is_finished (play false until_death (start tasks)).watcher ≡ true
unfolding play
death_finished = refl

failure_finished : is_finished (play false until_failure (start tasks)).watcher ≡ true
unfolding play
failure_finished = refl

play-IsComplete_example :
    IsComplete false (play false until_failure (start tasks))
    × ToldBy tasks
        (play false until_failure (start tasks)).owner
        (play false until_failure (start tasks)).shared.stream
play-IsComplete_example = play-IsComplete false until_failure tasks failure_finished

signal-Caught : Caught (play false until_signal (start tasks)).watcher
unfolding play
signal-Caught = tt

play-Dies_example : Dies false (play false until_signal (start tasks))
play-Dies_example = play-Dies false until_signal tasks signal-Caught
