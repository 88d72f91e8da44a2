-- ===== src/Webrtc/Frames.antt =====
-- modules/webrtc/SyncQueue.h and RequestServer.cc: the queue of decoded frames between the pipeline,
-- which pushes them, and the thread that hands them to the receiver's callback. What the two do under
-- the queue's lock is one step; a run is any order of such steps.
pub mod Laws
pub mod Ending
use aitt.Base.{
  ℕ, Bool, true, false, List, [], ◌∷◌, ◌++◌, Option, none, some, if◌then◌else◌, not, ◌&&◌, Text,
  is_empty,
}

-- The bytes of a frame; `WakeUpAll` pushes one without bytes.
abbrev pub Frame : Type 0
Frame = Text

unfoldable pub queue_is_empty : List Frame → Bool
queue_is_empty [] = true
queue_is_empty (f ∷ fs) = false

unfoldable pub queue_push : Frame → List Frame → List Frame
queue_push f queue = queue ++ f ∷ []

-- `pop` of an empty `std::queue` is undefined: `none`.
unfoldable pub queue_pop : List Frame → Option (List Frame)
queue_pop [] = none
queue_pop (f ∷ queue) = some queue

-- `none` while the caller waits.
unfoldable pub waited_front : List Frame → Option Frame
waited_front [] = none
waited_front (f ∷ queue) = some f

-- Where `ThreadMain` is: before the test of the loop, in `WaitedFront`, with a frame in hand, before
-- `Pop`, at its end, or past an undefined `pop`.
pub data Position : Type 0 where
  not_started testing waiting popping ended broken : Position
  calling : Frame → Position

-- `on_frame_cb_` is set or not. `checked` is the frame of a `PushBuffer` that has found the queue
-- empty and has not pushed yet; `pushed` and `delivered` list what was pushed with bytes, and what
-- the callback was called with.
pub record Server : Type 0 where
  pub stop_working : Bool
  pub queue : List Frame
  pub on_frame_cb : Bool
  pub position : Position
  pub checked : Option Frame
  pub pushed : List Frame
  pub delivered : List Frame

abbrev pub new_server : Server
new_server = record {
  stop_working = false;
  queue = [];
  on_frame_cb = false;
  position = not_started;
  checked = none;
  pushed = [];
  delivered = [];
}

unfoldable pub set_on_frame_callback : Bool → Server → Server
set_on_frame_callback set s = record s { on_frame_cb = set }

-- `Start`, which makes the thread once: another one would be assigned over a running one.
unfoldable pub start_server : Server → Server
start_server s = elim s.position [
  | not_started ↦ record s { position = testing }
  | testing ↦ s
  | waiting ↦ s
  | popping ↦ s
  | ended ↦ s
  | broken ↦ s
  | calling f ↦ s
]

-- The first half of `PushBuffer`: its guards, and `IsEmpty`. One frame is pushed at a time.
unfoldable pub check_buffer : Frame → Server → Server
unfolding queue_is_empty
check_buffer f s = elim s.checked [
  | some g ↦ s
  | none ↦ if not (is_empty f) && queue_is_empty s.queue then record s { checked = some f } else s
]

-- The second half: `Push`.
unfoldable pub push_checked : Server → Server
unfolding queue_push
push_checked s = elim s.checked [
  | none ↦ s
  | some f ↦ record s { queue = queue_push f s.queue; checked = none; pushed = s.pushed ++ f ∷ [] }
]

-- `PushBuffer` where nothing comes in between.
unfoldable pub push_buffer : Frame → Server → Server
unfolding check_buffer push_checked
push_buffer f s = push_checked (check_buffer f s)

-- `Stop` up to the `join`.
unfoldable pub set_stop_working : Server → Server
set_stop_working s = record s { stop_working = true }

unfoldable pub wake_up_all : Server → Server
unfolding queue_push
wake_up_all s = record s { queue = queue_push [] s.queue }

-- The next step of `ThreadMain`.
unfoldable pub thread_step : Server → Server
unfolding waited_front queue_pop
thread_step s = elim s.position [
  | not_started ↦ s
  | testing ↦ record s { position = if s.stop_working then ended else waiting }
  | waiting ↦ elim (waited_front s.queue) [ none ↦ s | some f ↦ record s { position = calling f } ]
  | calling f ↦ record s {
    position = popping;
    delivered = if not (is_empty f) && s.on_frame_cb then s.delivered ++ f ∷ [] else s.delivered;
  }
  | popping ↦ elim (queue_pop s.queue) [
    | none ↦ record s { position = broken }
    | some queue ↦ record s { queue = queue; position = testing }
  ]
  | ended ↦ s
  | broken ↦ s
]

-- The steps of all who use the server.
pub data Step : Type 0 where
  starts pushes stops wakes runs : Step
  checks : Frame → Step

unfoldable pub take_step : Step → Server → Server
unfolding start_server check_buffer push_checked set_stop_working wake_up_all thread_step
take_step starts s = start_server s
take_step (checks f) s = check_buffer f s
take_step pushes s = push_checked s
take_step stops s = set_stop_working s
take_step wakes s = wake_up_all s
take_step runs s = thread_step s

unfoldable pub take_steps : List Step → Server → Server
unfolding take_step
take_steps [] s = s
take_steps (step ∷ steps) s = take_steps steps (take_step step s)

-- `n` steps of the thread alone.
unfoldable pub run_thread : ℕ → Server → Server
unfolding thread_step
run_thread ℕ.zero s = s
run_thread (ℕ.suc n) s = run_thread n (thread_step s)
