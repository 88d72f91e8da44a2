-- ===== src/Loop/Idle.antt =====
-- common/PosixMainLoop.cc: idle callbacks are run, whatever stands in the pipe before them.
use aitt.Base.{ℕ, zero, suc, ◌≡◌, Bool, true, List, [], ◌∷◌}
use aitt.Loop.{Loop, Entry, Event, Token, ping, idle, quit, timeout, idle_round}

-- The tokens that wake the loop for nothing.
abbrev pub others : List Token → ℕ
others [] = 0
others (idle ∷ ts) = others ts
others (ping ∷ ts) = suc (others ts)
others (quit ∷ ts) = suc (others ts)
others (timeout n ∷ ts) = suc (others ts)

module _ (call : Entry → Event → Loop → Loop × Bool) where
  unfoldable pub idle_rounds : ℕ → Loop → Loop
  unfolding idle_round
  idle_rounds zero q = q
  idle_rounds (suc n) q = idle_rounds n (idle_round call q)

-- What idle callbacks do: `act` is the effect of one of them, which is then done, and which neither
-- reads nor changes the idle callbacks that wait and the pipe.
module _ (act : Entry → Event → Loop → Loop)
    (apart : (e : Entry) (v : Event) (q : Loop) (es : List Entry) (ts : List Token)
      → act e v (record q { idle_table = es; idle_pipe = ts })
        ≡ record (act e v q) { idle_table = es; idle_pipe = ts }) where
  abbrev pub acting : Entry → Event → Loop → Loop × Bool
  acting e v q = (act e v q, true)

  -- All callbacks, in their order.
  unfoldable pub all_acts : List Entry → Loop → Loop
  all_acts [] q = q
  all_acts (e ∷ es) q = all_acts es (act e e.result q)

  -- The loop without what is idle.
  abbrev pub rest_of : Loop → Loop
  rest_of q = record q { idle_table = []; idle_pipe = [] }

  abbrev idling : List Entry → List Token → Loop → Loop
  idling es ts q = record q { idle_table = es; idle_pipe = ts }

  Done : List Entry → Loop → Loop → Type 0
  Done es q q' = (q'.idle_table ≡ []) × (rest_of q' ≡ all_acts es (rest_of q))
