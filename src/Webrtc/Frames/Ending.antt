-- ===== src/Webrtc/Frames/Ending.antt =====
-- modules/webrtc/RequestServer.cc: what the receiver's callback gets, and the end of the thread.
use aitt.Base.{Bool, ◌≤◌, ◌≡◌, ◌≢◌, refl, true, List, [], ◌∷◌, ◌++◌, length, arith, Option}
use aitt.Webrtc.Frames.{
  Frame, Position, not_started, testing, waiting, popping, ended, broken, calling, Server, Step,
  take_steps, new_server, set_on_frame_callback, run_thread, thread_step, wake_up_all,
  set_stop_working, queue_push, queue_pop, waited_front, queue_is_empty,
}
use aitt.Webrtc.Frames.Laws.{
  waiting_frames, behind, Holds, listening-IsOrderly, take_steps-IsOrderly,
}

-- A server whose callback is set, and nothing else has happened.
abbrev pub listening : Server
listening = set_on_frame_callback true new_server

behind-few :
    (p : Position) (queue : List Frame)
    → length (waiting_frames queue) ≤ 1
    → length (waiting_frames (behind p queue)) ≤ 1
unfolding behind waiting_frames
behind-few popping [] h = h
behind-few popping (f ∷ queue) h = ground arith
behind-few not_started queue h = h
behind-few testing queue h = h
behind-few waiting queue h = h
behind-few ended queue h = h
behind-few broken queue h = h
behind-few (calling f) queue h = h

Holds-not_broken : (p : Position) (queue : List Frame) → Holds p queue → p ≢ broken
unfolding Holds
Holds-not_broken broken queue h e = ground arith
Holds-not_broken popping queue h e = ground arith
Holds-not_broken not_started queue h e = ground arith
Holds-not_broken testing queue h e = ground arith
Holds-not_broken waiting queue h e = ground arith
Holds-not_broken ended queue h e = ground arith
Holds-not_broken (calling f) queue h e = ground arith

-- However the steps of the pipeline, of the thread and of `Stop` follow each other, the callback has
-- been called with the frames that were pushed, in their order and each once, but for at most one
-- that still waits; and the thread never pops an empty queue.
pub take_steps-delivered :
    (steps : List Step)
    → let s = take_steps steps listening in
      ((rest : List Frame) × ((s.pushed ≡ s.delivered ++ rest) × (length rest ≤ 1)))
      × (s.position ≢ broken)
take_steps-delivered steps =
    let s = take_steps steps listening in
    let o = take_steps-IsOrderly steps listening listening-IsOrderly in
    (
      (
        waiting_frames (behind s.position s.queue),
        (o.order, behind-few s.position s.queue (let few = o.few in omega arith)),
      ),
      Holds-not_broken s.position s.queue o.holds,
    )

module _ (stop cb : Bool) (checked : Option Frame) (pushed delivered : List Frame) where
  ends :
      (p : Position) (queue : List Frame)
      → Holds p queue
      → p ≢ not_started
      → (run_thread 4 (
          wake_up_all (
            set_stop_working (record {
              stop_working = stop;
              queue = queue;
              on_frame_cb = cb;
              position = p;
              checked = checked;
              pushed = pushed;
              delivered = delivered;
            })))).position
        ≡ ended
  unfolding run_thread wake_up_all set_stop_working queue_push thread_step queue_pop waited_front
      queue_is_empty Holds
  ends testing queue h n = refl
  ends waiting [] h n = refl
  ends waiting (f ∷ queue) h n = refl
  ends popping [] h n = ground arith
  ends popping (f ∷ queue) h n = refl
  ends ended queue h n = refl
  ends broken queue h n = ground arith
  ends not_started queue h n = absurd (n refl)
  ends (calling f) [] h n = ground arith
  ends (calling f) (g ∷ queue) h n = refl

-- Whatever happened before, when `Stop` has set its flag and woken the thread, a thread that was
-- started is at its end after at most four more steps of its own: the `join` returns.
pub run_thread-ended :
    (steps : List Step)
    → (take_steps steps listening).position ≢ not_started
    → (run_thread 4 (wake_up_all (set_stop_working (take_steps steps listening)))).position ≡ ended
run_thread-ended steps n =
    let s = take_steps steps listening in
    ends s.stop_working s.on_frame_cb s.checked s.pushed s.delivered s.position s.queue
      (take_steps-IsOrderly steps listening listening-IsOrderly).holds n
