-- ===== src/Loop/Timeouts/Quitting.antt =====
-- common/PosixMainLoop.cc: `Quit` ends the loop.
use aitt.Base.{
  ◌⊎◌, ℕ, zero, suc, ◌<◌, ◌≡◌, refl, ap, ◌∙◌, Bool, true, List, [], ◌∷◌, ◌++◌, none, some, length,
  lookup, number_key, arith, Bool-cases, Option-cases, inl, inr,
}
use aitt.Loop.{
  Loop, Entry, Event, Token, ping, idle, quit, timeout, Ready, quit_loop, remove_timeout,
}
use aitt.Loop.Timeouts.{
  TimeoutEnd, handled, stops, freed, unfinished, after, timeout_one, read_timeouts, check_timeout,
  resumed, rest_of_round, run_round,
}

module _ (call : Entry → Event → Loop → Loop × Bool) (created : Loop → Bool)
    (quiet : (e : Entry) (v : Event) (q : Loop) → (call e v q).0 ≡ q) where
  -- With quiet callbacks there is no timeout, or it leaves the pipe alone, or its timer fails.
  timeout_one_cases :
      (id : ℕ) (q : Loop)
      → (timeout_one call created id q ≡ none)
        ⊎ (((q' : Loop) × ((timeout_one call created id q ≡ some (q', handled true))
                × (q'.timeout_pipe ≡ q.timeout_pipe)))
            ⊎ ((q' : Loop) × (timeout_one call created id q ≡ some (q', stops))))
  unfolding timeout_one remove_timeout
  timeout_one_cases id q = elim (Option-cases (lookup id q.timeout_table)) [
    | inl n ↦ inl (rw (timeout_one, n) refl)
    | inr (e, s) ↦
        let q' = (call e e.result q).0 in
        let same = quiet e e.result q in
        elim (Bool-cases (call e e.result q).1) [
          | inl r ↦ inr (
              inl (
                remove_timeout id q',
                (rw (timeout_one, s, r) refl, ap (λ x. x.timeout_pipe) same),
              ))
          | inr r ↦
              let there : lookup id q'.timeout_table ≡ some e =
                ap (λ x. lookup id x.timeout_table) same ∙ s in
              elim (Bool-cases (created q')) [
                | inl c ↦ inr (
                    inl
                      (q', (rw (timeout_one, s, r, there, c) refl, ap (λ x. x.timeout_pipe) same)))
                | inr c ↦ inr (inr (q', rw (timeout_one, s, r, there, c) refl))
              ]
        ]
  ]

  read_timeouts-quit :
      (fuel : ℕ) (before post : List Token) (q : Loop)
      → q.timeout_pipe ≡ before ++ quit ∷ post
      → length before < fuel
      → (read_timeouts call created fuel q).1 ≡ stops
  unfolding read_timeouts
  read_timeouts-quit zero before post q e h = absurd (omega arith)
  read_timeouts-quit (suc fuel) [] post q e h = rw e refl
  read_timeouts-quit (suc fuel) (quit ∷ before) post q e h = rw e refl
  read_timeouts-quit (suc fuel) (ping ∷ before) post q e h =
      rw e (read_timeouts-quit fuel before post _ refl (omega arith))
  read_timeouts-quit (suc fuel) (idle ∷ before) post q e h =
      rw e (read_timeouts-quit fuel before post _ refl (omega arith))
  read_timeouts-quit (suc fuel) (timeout id ∷ before) post q e h =
      let q1 = record q { timeout_pipe = before ++ quit ∷ post } in
      let next = read_timeouts call created fuel in
      rw e (elim (timeout_one_cases id q1) [
        | inl n ↦
            ap (λ o. (resumed call created o next q1).1) n
            ∙ read_timeouts-quit fuel before post q1 refl (omega arith)
        | inr (inl (q', (s, p))) ↦
            ap (λ o. (resumed call created o next q1).1) s
            ∙ ap (after call created true) (read_timeouts-quit fuel before post q' p (omega arith))
        | inr (inr (q', s)) ↦ ap (λ o. (resumed call created o next q1).1) s
      ])

  stopped :
      (idles : Bool) (ready : List Ready) (r : Loop × TimeoutEnd)
      → r.1 ≡ stops
      → (rest_of_round call created idles ready r).1 ≡ stops
  unfolding rest_of_round
  stopped idles ready (q, stops) e = refl
  stopped idles ready (q, handled b) e = ground arith
  stopped idles ready (q, freed) e = e
  stopped idles ready (q, unfinished) e = e

  quitted :
      (q : Loop)
      → (quit_loop q).1 ≡ true
      → (quit_loop q).0.timeout_pipe ≡ q.timeout_pipe ++ quit ∷ []
  unfolding quit_loop
  quitted q e = ground arith

  -- With callbacks that leave the loop alone: when `Quit` has returned true, the next round in which
  -- the pipe of the timeouts is found readable ends the loop, whatever else is ready and whichever
  -- timeouts are due before, as soon as the fuel is more than the numbers in the pipe.
  pub run_round-quit_loop :
      (fuel : ℕ) (idles : Bool) (ready : List Ready) (q : Loop)
      → (quit_loop q).1 ≡ true
      → length q.timeout_pipe < fuel
      → (run_round call created fuel true idles ready (quit_loop q).0).1 ≡ stops
  unfolding run_round check_timeout
  run_round-quit_loop fuel idles ready q t h =
      let q' = (quit_loop q).0 in
      stopped idles ready (read_timeouts call created fuel q')
        (read_timeouts-quit fuel q.timeout_pipe [] q' (quitted q t) h)
