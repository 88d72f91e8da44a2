-- ===== src/Loop.antt =====
-- common/PosixMainLoop.cc: the tables of watches, timeouts and idle callbacks, the two pipes that wake
-- the loop, and what a round of `Run` does after `poll`. The timers of the operating system are
-- arguments; a callback may do anything with the loop.
pub mod Idle
pub mod Watches
pub mod Timeouts
use aitt.Base.{
  ℕ, zero, suc, ◌+◌, ◌==◌, Bool, true, false, ◌||◌, List, [], ◌∷◌, ◌++◌, Option, none, some,
  if◌then◌else◌, lookup, insert, erase, number_key, not,
}

-- `MainLoopIface::Event`
pub data Event : Type 0 where
  okay hangup error : Event

-- `MainLoopCbData`. `cb` names the callback, and `data` is a pointer.
pub record Entry : Type 0 where
  pub cb : ℕ
  pub user_data : ℕ
  pub result : Event
  pub fd : ℕ
  pub interval : ℕ

-- What is written to the pipes.
pub data Token : Type 0 where
  ping idle quit : Token
  timeout : ℕ → Token

pub record Loop : Type 0 where
  pub running : Bool
  pub watch_table : List (ℕ × Entry)
  pub timeout_table : List (ℕ × Entry)
  pub idle_table : List Entry
  pub idle_pipe : List Token
  pub timeout_pipe : List Token
  pub identifier : ℕ

abbrev pub to_idle_pipe : Token → Loop → Loop
to_idle_pipe t q = record q { idle_pipe = q.idle_pipe ++ t ∷ [] }

-- `false` when the loop is not running.
unfoldable pub quit_loop : Loop → Loop × Bool
quit_loop q =
    if not q.running
    then (q, false)
    else (record q { running = false; timeout_pipe = q.timeout_pipe ++ quit ∷ [] }, true)

unfoldable pub add_idle : Entry → Loop → Loop
add_idle e q = to_idle_pipe idle (record q { idle_table = q.idle_table ++ e ∷ [] })

-- `std::map::insert` does not replace a watch that is there.
unfoldable pub add_watch : Entry → Loop → Loop
add_watch e q = elim (lookup e.fd q.watch_table) [
  | some w ↦ to_idle_pipe ping q
  | none ↦ to_idle_pipe ping (record q { watch_table = insert e.fd e q.watch_table })
]

-- The data of the watch, 0 for nullptr.
unfoldable pub remove_watch : ℕ → Loop → Loop × ℕ
remove_watch fd q = elim (lookup fd q.watch_table) [
  | none ↦ (q, 0)
  | some w ↦ (to_idle_pipe ping (record q { watch_table = erase fd q.watch_table }), w.user_data)
]

-- `created` tells whether `SetTimer` returns a timer; 0 is the id of none.
unfoldable pub add_timeout : (created : Bool) → Entry → Loop → Loop × ℕ
add_timeout created e q =
    if e.interval == 0
    then (q, 0)
    else if created
    then (
      record q {
        timeout_table = insert q.identifier e q.timeout_table;
        identifier = suc q.identifier;
      },
      q.identifier,
    )
    else (q, 0)

unfoldable pub remove_timeout : ℕ → Loop → Loop
remove_timeout id q = record q { timeout_table = erase id q.timeout_table }

-- `poll` for one descriptor.
pub record Ready : Type 0 where
  pub fd : ℕ
  pub readable : Bool
  pub hung_up : Bool
  pub failed : Bool

abbrev pub is_ready : Ready → Bool
is_ready r = r.readable || r.hung_up || r.failed

-- The event that the callback is told: the last one of the entry, if nothing has gone wrong.
abbrev pub event_of : Ready → Event → Event
event_of r e = if r.hung_up then hangup else if r.failed then error else e

abbrev pub pop_front : List Entry → List Entry
pop_front [] = []
pop_front (e ∷ es) = es

-- What is still waiting at the end of a round wakes the next one.
abbrev pub waking : Loop → Loop
waking q = elim q.idle_table [ [] ↦ q | e ∷ es ↦ to_idle_pipe idle q ]

-- `call e v q` is what a callback does with the loop, and whether it returns AITT_LOOP_EVENT_REMOVE.
module _ (call : Entry → Event → Loop → Loop × Bool) where
  -- The entry remembers the event in the table before the callback is called.
  unfoldable pub check_one : Ready → Entry → Loop → Loop
  unfolding remove_watch
  check_one r w q =
      let v = event_of r w.result in
      let e : Entry = record w { result = v } in
      let r' = call e v (record q { watch_table = insert r.fd e q.watch_table }) in
      if r'.1 then (remove_watch r.fd r'.0).0 else r'.0

  unfoldable pub check_watch : List Ready → Loop → Loop × Bool
  unfolding check_one
  check_watch [] q = (q, false)
  check_watch (r ∷ rs) q =
      if is_ready r
      then elim (lookup r.fd q.watch_table) [
        | none ↦ check_watch rs q
        | some w ↦ ((check_watch rs (check_one r w q)).0, true)
      ]
      else check_watch rs q

  unfoldable pub idle_front : Loop → Loop
  idle_front q = elim q.idle_table [
    | [] ↦ q
    | e ∷ es ↦
        let r = call e e.result q in
        if r.1 then record (r.0) { idle_table = pop_front r.0.idle_table } else r.0
  ]

  -- One token is read; what the callback is told of an idle entry is its own `result`.
  unfoldable pub check_idle : Loop → Loop
  unfolding idle_front
  check_idle q = elim q.idle_pipe [
    | [] ↦ q
    | idle ∷ pipe ↦ idle_front (record q { idle_pipe = pipe })
    | t ∷ pipe ↦ record q { idle_pipe = pipe }
  ]

  -- A round where no descriptor is watched and no timeout is due: at an empty pipe `poll` waits.
  unfoldable pub idle_round : Loop → Loop
  unfolding check_idle
  idle_round q = elim q.idle_pipe [ [] ↦ q | t ∷ ts ↦ waking (check_idle q) ]
