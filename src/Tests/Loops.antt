-- ===== src/Tests/Loops.antt =====
-- The theorems on common/PosixMainLoop.cc at a concrete loop.
use aitt.Base.{
  ℕ, ◌==◌, ◌≡◌, ◌++◌, refl, Bool, true, false, List, [], ◌∷◌, lookup, number_key, arith,
}
use aitt.Loop.{Loop, Entry, Event, okay, ping, idle, Ready, check_watch}
use aitt.Loop.Idle.{idle_rounds, acting}
use aitt.Loop.{quit_loop, timeout}
use aitt.Loop.Timeouts.{stops, run_round}
use aitt.Loop.Timeouts.Quitting.{run_round-quit_loop}
use aitt.Loop.Watches.{watched, check_watch-lookup}

abbrev entry : ℕ → ℕ → Entry
entry cb fd = record { cb = cb; user_data = 0; result = okay; fd = fd; interval = 0 }

abbrev loop : Loop
loop = record {
  running = true;
  watch_table = (4, entry 1 4) ∷ (5, entry 2 5) ∷ [];
  timeout_table = [];
  idle_table = entry 3 0 ∷ entry 4 0 ∷ [];
  idle_pipe = ping ∷ idle ∷ idle ∷ [];
  timeout_pipe = [];
  identifier = 3;
}

-- The callback sets a timer of its number.
abbrev counts : Entry → Event → Loop → Loop
counts e v q = record q { timeout_table = q.timeout_table ++ (e.cb, e) ∷ [] }

abbrev idle_again : Loop
idle_again = idle_rounds (acting counts (λ e v q es ts. refl)) 4 loop

-- The callback 2 asks to be removed.
abbrev removes : Entry → Bool
removes e = e.cb == 2

abbrev quiet : Entry → Event → Loop → Loop × Bool
quiet e v q = (q, removes e)

abbrev events : List Ready
events =
    record { fd = 5; readable = true; hung_up = false; failed = false }
    ∷ record { fd = 4; readable = true; hung_up = true; failed = false }
    ∷ []

check_watch-lookup_example :
    lookup 4 (check_watch quiet events loop).0.watch_table
    ≡ watched removes events 4 (lookup 4 loop.watch_table)
check_watch-lookup_example = check_watch-lookup quiet removes (λ e q. refl) events loop 4

-- The timeout 7 is due before `Quit` is called.
abbrev timed : Loop
timed = record loop { timeout_table = (7, entry 6 0) ∷ []; timeout_pipe = ping ∷ timeout 7 ∷ [] }

run_round-quit_loop_example :
    (run_round quiet (λ q. true) 4 true true events (quit_loop timed).0).1 ≡ stops
unfolding quit_loop
run_round-quit_loop_example =
    run_round-quit_loop quiet (λ q. true) (λ e v q. refl) 4 true events timed refl (omega arith)
