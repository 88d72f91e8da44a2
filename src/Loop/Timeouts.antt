-- ===== src/Loop/Timeouts.antt =====
-- common/PosixMainLoop.cc: the timeouts of a round of `Run`, and the round as a whole.
pub mod Quitting
use aitt.Base.{
  ℕ, zero, suc, Bool, true, false, ◌||◌, List, [], ◌∷◌, Option, none, some, if◌then◌else◌, lookup,
  number_key,
}
use aitt.Loop.{
  Loop, Entry, Event, Token, ping, idle, quit, timeout, Ready, remove_timeout, check_watch,
  check_idle, to_idle_pipe,
}

-- How `CheckTimeout` ends: with true or false, with -1, past an entry that its own callback has
-- deleted, or not within the fuel.
pub data TimeoutEnd : Type 0 where
  handled : Bool → TimeoutEnd
  stops freed unfinished : TimeoutEnd

-- `call` is what a callback does, and whether it returns AITT_LOOP_EVENT_REMOVE; `created` tells
-- whether `SetTimer` gives a timer.
module _ (call : Entry → Event → Loop → Loop × Bool) (created : Loop → Bool) where
  -- What is done for the timeout of an identifier: `none` where there is none.
  unfoldable pub timeout_one : ℕ → Loop → Option (Loop × TimeoutEnd)
  unfolding remove_timeout
  timeout_one id q = elim (lookup id q.timeout_table) [
    | none ↦ none
    | some e ↦
        let (q', remove) = call e e.result q in
        some (
          if remove
          then (remove_timeout id q', handled true)
          else elim (lookup id q'.timeout_table) [
            | none ↦ (q', freed)
            | some e' ↦ (q', if created q' then handled true else stops)
          ])
  ]

  abbrev pub after : Bool → TimeoutEnd → TimeoutEnd
  after b (handled c) = handled (b || c)
  after b stops = stops
  after b freed = freed
  after b unfinished = unfinished

  -- The rest of the loop, after what was done for a timeout.
  abbrev pub resumed :
      Option (Loop × TimeoutEnd) → (Loop → Loop × TimeoutEnd) → Loop → Loop × TimeoutEnd
  resumed none next q = next q
  resumed (some (q', handled b)) next q = ((next q').0, after b (next q').1)
  resumed (some (q', stops)) next q = (q', stops)
  resumed (some (q', freed)) next q = (q', freed)
  resumed (some (q', unfinished)) next q = (q', unfinished)

  -- The loop that reads the pipe until it is empty; the fuel bounds the numbers that are read.
  unfoldable pub read_timeouts : ℕ → Loop → Loop × TimeoutEnd
  unfolding timeout_one
  read_timeouts zero q = (q, unfinished)
  read_timeouts (suc fuel) q = elim q.timeout_pipe [
    | [] ↦ (q, handled false)
    | t ∷ pipe ↦
        let q1 = record q { timeout_pipe = pipe } in
        elim t [
          | quit ↦ (q1, stops)
          | ping ↦ read_timeouts fuel q1
          | idle ↦ read_timeouts fuel q1
          | timeout id ↦ resumed (timeout_one id q1) (read_timeouts fuel) q1
        ]
  ]

  -- What `poll` tells: the two pipes, and the descriptors that are watched.
  unfoldable pub check_timeout : (fuel : ℕ) → (readable : Bool) → Loop → Loop × TimeoutEnd
  unfolding read_timeouts
  check_timeout fuel readable q = if readable then read_timeouts fuel q else (q, handled false)

  -- The end of a round: what is idle wakes the next one.
  abbrev pub woken : Loop → Loop
  woken q = elim q.idle_table [ [] ↦ q | e ∷ es ↦ to_idle_pipe idle q ]

  -- What follows `CheckTimeout` in a round.
  unfoldable pub rest_of_round : (idles : Bool) → List Ready → Loop × TimeoutEnd → Loop × TimeoutEnd
  unfolding check_watch check_idle
  rest_of_round idles ready (q, stops) = (q, stops)
  rest_of_round idles ready (q, freed) = (q, freed)
  rest_of_round idles ready (q, unfinished) = (q, unfinished)
  rest_of_round idles ready (q, handled b) =
      let (q', w) = check_watch call ready q in
      let q'' = if b || w then q' else if idles then check_idle call q' else q' in
      (woken q'', handled (b || w))

  -- A round of `Run` after `poll` has found something; the second part tells how it ends.
  unfoldable pub run_round :
      (fuel : ℕ) → (timeouts idles : Bool) → List Ready → Loop → Loop × TimeoutEnd
  unfolding check_timeout rest_of_round
  run_round fuel timeouts idles ready q = rest_of_round idles ready (check_timeout fuel timeouts q)
