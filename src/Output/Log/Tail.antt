-- ===== src/Output/Log/Tail.antt =====
-- The tail against a description of the log by whole lines, without reads, rooms or a ring.
use mathlib.Core.List.{append-nil, append_assoc}
use workspace_cli.Output.Log.{
  Log, append_text, line_cap, take, trim_incomplete_rune, add, consume_from, end_line, keep_line,
  log_tail, new_log, read_all, restart, shown, skip_to, last_of, live_line,
}
use workspace_cli.Output.Log.Chunks.{
  append_text-append, consume_from-read_byte, joined, read_all-concat, read_byte,
}
use workspace_cli.Output.Log.Last.{
  clipped, drop-append_le, if_append, last20, last20-append, last_of-last20, last_of-snoc,
  length-last20,
}
use workspace_cli.Prelude.{
  Bool, Bool-cases, Bytes, List, [], ap, arith, drop, false, if◌then◌else◌, inl, inr, length,
  length-append, ltb, refl, true, ℕ, ◌++◌, ◌-◌, ◌==◌, ◌∙◌, ◌∷◌, ◌≡◌, if_false, if_true, sym, ==_iff,
  false≢true, ◌≢◌, not, ◌&&◌,
}

-- The lines, the unfinished last one included, each with whether its start is cut off; `line` is what
-- the first one has so far. A line break ends a line; behind a carriage return, text starts its line
-- again, which then is not cut.
abbrev pub texts_of : Bytes → Bool → Bool → Bytes → List (Bytes × Bool)
texts_of line cut cr [] = (line, cut) ∷ []
texts_of line cut cr (b ∷ p) =
    let broken = texts_of [] false false p in
    let returned = texts_of line cut true p in
    let more = texts_of ((if cr then [] else line) ++ b ∷ []) (if cr then false else cut) false p in
    if b == 10 then (line, cut) ∷ broken else if b == 13 then returned else more

-- A text of more than 1024 bytes is cut there, before a rune that would be incomplete.
abbrev pub capped : Bytes → Bytes
capped line = if ltb line_cap (length line) then trim_incomplete_rune (take line_cap line) else line

abbrev state_of : Bytes → Bool → Bool → List Bytes → Log
state_of line cut cr ls = record {
  partial = capped line;
  cr = cr;
  full = ltb line_cap (length line);
  cut = cut;
  lines = last20 ls;
}

abbrev whole : Bool → List Bytes → Bytes → Bool → Log
whole cut ls p f = record { partial = p; cr = false; full = f; cut = cut; lines = last20 ls }

whole_if :
    (cut : Bool) (ls : List Bytes) (p q : Bytes) (c : Bool)
    → (if c then whole cut ls p true else whole cut ls q false)
      ≡ whole cut ls (if c then p else q) c
whole_if cut ls p q true = refl
whole_if cut ls p q false = refl

live_if :
    (c : Bool) (xs : List Bytes) (x : Bytes)
    → (if c then last_of xs else x) ≡ last_of (if c then xs else xs ++ x ∷ [])
live_if true xs x = refl
live_if false xs x = sym (last_of-snoc xs x)

-- Text goes into the line as a whole.
append_text-state_of :
    (line : Bytes) (cut : Bool) (ls : List Bytes)
    → append_text line (state_of [] cut false ls) ≡ state_of line cut false ls
unfolding append_text
append_text-state_of line cut ls =
    whole_if cut ls (trim_incomplete_rune (take line_cap line)) line (ltb line_cap (length line))

restart-state_of :
    (line : Bytes) (cut cr : Bool) (ls : List Bytes)
    → restart (state_of line cut cr ls)
      ≡ state_of (if cr then [] else line) (if cr then false else cut) false ls
unfolding restart
restart-state_of line cut true ls = refl
restart-state_of line cut false ls = refl

add-state_of :
    (b : ℕ) (line : Bytes) (cut cr : Bool) (ls : List Bytes)
    → add (b ∷ []) (state_of line cut cr ls)
      ≡ state_of ((if cr then [] else line) ++ b ∷ []) (if cr then false else cut) false ls
unfolding add
add-state_of b line cut cr ls =
    let old = if cr then [] else line in
    let off = if cr then false else cut in
    ap (append_text (b ∷ []))
      (restart-state_of line cut cr ls ∙ sym (append_text-state_of old off ls))
    ∙ sym (append_text-append old (b ∷ []) (state_of [] off false ls))
    ∙ append_text-state_of (old ++ b ∷ []) off ls

module _ (blank : Bytes → Bool) (marker : Bytes) where
  abbrev whole_line : Bytes → Bool → Bytes
  whole_line line cut = shown blank marker cut (capped line)

  abbrev kept : Bytes → Bool → List Bytes
  kept line cut = if blank (whole_line line cut) then [] else whole_line line cut ∷ []

  -- The lines that are not blank, as they are shown.
  abbrev pub all_kept : List (Bytes × Bool) → List Bytes
  all_kept [] = []
  all_kept ((line, cut) ∷ ts) = kept line cut ++ all_kept ts

  keep_line-last20 :
      (line : Bytes) (ls : List Bytes)
      → keep_line blank marker line (last20 ls) ≡ last20 (ls ++ line ∷ [])
  unfolding keep_line
  keep_line-last20 line ls =
      let xs = last20 ls in
      let n = length-append xs (line ∷ []) in
      elim (Bool-cases (length xs == 20)) [
        | inl t ↦
            let e = (==_iff (length xs) 20).0 t in
            if_true (length xs == 20) _ _ t
            ∙ drop-append_le 1 xs (line ∷ []) (omega (arith, e))
            ∙ ap (λ k. drop k (xs ++ line ∷ [])) {x = 1} {y = length (xs ++ line ∷ []) - 20}
                (omega (arith, e, n))
            ∙ last20-append ls (line ∷ [])
        | inr t ↦
            let e : length xs ≢ 20 = λ e. false≢true (sym t ∙ (==_iff (length xs) 20).1 e) in
            if_false (length xs == 20) _ _ t
            ∙ ap (λ k. drop k (xs ++ line ∷ [])) {x = 0} {y = length (xs ++ line ∷ []) - 20}
                (omega (arith, length-last20 ls, e, n))
            ∙ last20-append ls (line ∷ [])
      ]

  end_line-state_of :
      (line : Bytes) (cut cr : Bool) (ls : List Bytes)
      → end_line blank marker (record (state_of line cut cr ls) { cr = false })
        ≡ state_of [] false false (ls ++ kept line cut)
  unfolding end_line
  end_line-state_of line cut cr ls = elim (Bool-cases (blank (whole_line line cut))) [
    | inl t ↦
        if_true _ _ _ t
        ∙ ap (state_of [] false false)
            (sym (append-nil ls) ∙ ap (λ k. ls ++ k) (sym (if_true _ _ _ t)))
    | inr t ↦
        if_false _ _ _ t
        ∙ ap (λ k. record (state_of [] false false ls) { lines = k })
            (keep_line-last20 (whole_line line cut) ls
              ∙ ap (λ k. last20 (ls ++ k)) (sym (if_false _ _ _ t)))
  ]

  log_tail-state_of :
      (line : Bytes) (cut cr : Bool) (ls : List Bytes)
      → log_tail blank marker (state_of line cut cr ls) ≡ last20 (ls ++ kept line cut)
  unfolding log_tail
  log_tail-state_of line cut cr ls =
      let w = whole_line line cut in
      clipped (if blank w then last20 ls else last20 ls ++ w ∷ [])
      ∙ ap last20 (if_append (blank w) (last20 ls) (w ∷ []))
      ∙ last20-append ls (kept line cut)

  fold-texts_of :
      (line : Bytes) (cut cr : Bool) (p : Bytes) (ls : List Bytes)
      → log_tail blank marker (consume_from blank marker [] p (state_of line cut cr ls))
        ≡ last20 (ls ++ all_kept (texts_of line cut cr p))
  unfolding consume_from add read_byte
  fold-texts_of line cut cr [] ls =
      log_tail-state_of line cut cr ls
      ∙ ap (λ k. last20 (ls ++ k)) (sym (append-nil (kept line cut)))
  fold-texts_of line cut cr (b ∷ p) ls =
      let then_tail = λ (l : Log). log_tail blank marker (consume_from blank marker [] p l) in
      let told = λ (ts : List (Bytes × Bool)). last20 (ls ++ all_kept ts) in
      ap (log_tail blank marker) (consume_from-read_byte blank marker b p (state_of line cut cr ls))
      ∙ elim (Bool-cases (b == 10)) [
        | inl t ↦
            ap then_tail (if_true (b == 10) _ _ t ∙ end_line-state_of line cut cr ls)
            ∙ fold-texts_of [] false false p (ls ++ kept line cut)
            ∙ ap last20 (append_assoc ls (kept line cut) (all_kept (texts_of [] false false p)))
            ∙ ap told (sym (if_true (b == 10) _ _ t))
        | inr t ↦ elim (Bool-cases (b == 13)) [
          | inl s ↦
              ap then_tail (if_false (b == 10) _ _ t ∙ if_true (b == 13) _ _ s)
              ∙ fold-texts_of line cut true p ls
              ∙ ap told (sym (if_false (b == 10) _ _ t ∙ if_true (b == 13) _ _ s))
          | inr s ↦
              let old = if cr then [] else line in
              let off = if cr then false else cut in
              ap then_tail (
                if_false (b == 10) _ _ t ∙ if_false (b == 13) _ _ s ∙ add-state_of b line cut cr ls)
              ∙ fold-texts_of (old ++ b ∷ []) off false p ls
              ∙ ap told (sym (if_false (b == 10) _ _ t ∙ if_false (b == 13) _ _ s))
        ]
      ]

  live_line-last_of : (l : Log) → live_line blank marker l ≡ last_of (log_tail blank marker l)
  unfolding live_line log_tail
  live_line-last_of l =
      let w = shown blank marker l.cut l.partial in
      live_if (blank w) l.lines w
      ∙ sym (
          ap last_of (clipped (if blank w then l.lines else l.lines ++ w ∷ []))
          ∙ last_of-last20 (if blank w then l.lines else l.lines ++ w ∷ []))

  -- However what a task writes is divided into reads, the tail of a log that has read all of it is the
  -- last 20 of its lines that are not blank as they are shown. When a read skips bytes, the tail is
  -- that of what is read from there on, and its first line is a cut one unless the byte before it ends
  -- a line. The live line is always the last of the tail.
  pub log_tail-IsLast20 :
      (ps : List Bytes) (before : ℕ) (l : Log)
      → (log_tail blank marker (read_all blank marker ps new_log)
          ≡ last20 (all_kept (texts_of [] false false (joined ps))))
        × (log_tail blank marker (read_all blank marker ps (skip_to blank marker before l))
            ≡ last20 (
                all_kept
                  (texts_of [] (not (before == 10) && not (before == 13)) false (joined ps))))
        × (live_line blank marker l ≡ last_of (log_tail blank marker l))
  unfolding skip_to
  log_tail-IsLast20 ps before l = (
    ap (log_tail blank marker) (read_all-concat blank marker ps new_log)
        ∙ fold-texts_of [] false false (joined ps) [],
    ap (log_tail blank marker) (read_all-concat blank marker ps (skip_to blank marker before l))
        ∙ fold-texts_of [] (not (before == 10) && not (before == 13)) false (joined ps) [],
    live_line-last_of l,
  )
