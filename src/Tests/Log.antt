-- ===== src/Tests/Log.antt =====
-- A log in reads, and the theorem of internal/output/log.go at it.
use workspace_cli.Output.Log.{last_of, live_line, log_tail, new_log, read_all, skip_to}
use workspace_cli.Output.Log.Chunks.{joined}
use workspace_cli.Output.Log.Last.{last20}
use workspace_cli.Output.Log.Tail.{all_kept, log_tail-IsLast20, texts_of}
use workspace_cli.Prelude.{Bool, Bytes, List, [], false, refl, true, ◌∷◌, ◌≡◌}

-- "a", a line that is redrawn as "c", and an unfinished "d".
abbrev reads : List Bytes
reads = (97 ∷ 10 ∷ 98 ∷ []) ∷ (13 ∷ []) ∷ (99 ∷ 10 ∷ 100 ∷ []) ∷ []

abbrev is_nothing : Bytes → Bool
is_nothing [] = true
is_nothing (b ∷ p) = false

abbrev dots : Bytes
dots = 46 ∷ 46 ∷ []

tail_of_reads :
    log_tail is_nothing dots (read_all is_nothing dots reads new_log)
    ≡ (97 ∷ []) ∷ (99 ∷ []) ∷ (100 ∷ []) ∷ []
unfolding log_tail read_all
tail_of_reads = refl

-- A window that starts inside a line, and inside a rune.
tail_of_cut_reads :
    log_tail is_nothing dots
      (read_all is_nothing dots ((169 ∷ 97 ∷ 10 ∷ []) ∷ []) (skip_to is_nothing dots 195 new_log))
    ≡ (46 ∷ 46 ∷ 97 ∷ []) ∷ []
unfolding log_tail read_all skip_to
tail_of_cut_reads = refl

log_tail-IsLast20_example :
    (log_tail is_nothing dots (read_all is_nothing dots reads new_log)
      ≡ last20 (all_kept is_nothing dots (texts_of [] false false (joined reads))))
    × (log_tail is_nothing dots
          (read_all is_nothing dots reads (skip_to is_nothing dots 195 new_log))
        ≡ last20 (all_kept is_nothing dots (texts_of [] true false (joined reads))))
    × (live_line is_nothing dots new_log ≡ last_of (log_tail is_nothing dots new_log))
log_tail-IsLast20_example = log_tail-IsLast20 is_nothing dots reads 195 new_log
