-- ===== src/Webrtc/Frames/Laws.antt =====
-- modules/webrtc/RequestServer.cc: in which order frames are delivered, how many wait, and when the
-- thread ends.
use aitt.Base.{
  ℕ, ◌+◌, ◌≤◌, ◌≡◌, ◌∙◌, refl, sym, ap, Bool, true, false, List, [], ◌∷◌, ◌++◌, append_assoc,
  append-nil, Option, none, some, if◌then◌else◌, is_empty, length, length-append, arith, Bool-cases,
  inl, inr,
}
use aitt.Webrtc.Frames.{
  Frame, Position, not_started, testing, waiting, popping, ended, broken, calling, Server, Step,
  starts, pushes, stops, wakes, runs, checks, take_step, take_steps, queue_is_empty, queue_push,
  queue_pop, waited_front, start_server, check_buffer, push_checked, wake_up_all, thread_step,
  new_server, set_on_frame_callback,
}

-- What waits in the queue, without the frames that only wake the thread.
unfoldable pub waiting_frames : List Frame → List Frame
waiting_frames [] = []
waiting_frames (f ∷ queue) =
    let rest = waiting_frames queue in if is_empty f then rest else f ∷ rest

-- What is left in the queue when the frame in hand has been delivered and popped.
unfoldable pub behind : Position → List Frame → List Frame
behind popping [] = []
behind popping (f ∷ queue) = queue
behind not_started queue = queue
behind testing queue = queue
behind waiting queue = queue
behind ended queue = queue
behind broken queue = queue
behind (calling f) queue = queue

-- The thread holds the first frame of the queue, and is not past an undefined `pop`.
unfoldable pub Holds : Position → List Frame → Type 0
unfolding waited_front queue_is_empty
Holds popping queue = queue_is_empty queue ≡ false
Holds (calling f) queue = waited_front queue ≡ some f
Holds broken queue = true ≡ false
Holds not_started queue = Unit {0}
Holds testing queue = Unit {0}
Holds waiting queue = Unit {0}
Holds ended queue = Unit {0}

abbrev pending : Option Frame → ℕ
pending none = 0
pending (some f) = 1

abbrev IsFull : Option Frame → Type 0
IsFull none = Unit {0}
IsFull (some f) = is_empty f ≡ false

pub record IsOrderly (s : Server) : Type 0 where
  pub holds : Holds s.position s.queue
  pub order : s.pushed ≡ s.delivered ++ waiting_frames (behind s.position s.queue)
  pub few : length (waiting_frames s.queue) + pending s.checked ≤ 1
  pub full : IsFull s.checked
  pub listens : s.on_frame_cb ≡ true

waiting-append :
    (f : Frame) (queue : List Frame)
    → waiting_frames (queue ++ f ∷ []) ≡ waiting_frames queue ++ waiting_frames (f ∷ [])
unfolding waiting_frames
waiting-append f [] = refl
waiting-append f (g ∷ queue) = let ih = waiting-append f queue in ground arith

waiting-full :
    (f : Frame) (queue : List Frame)
    → is_empty f ≡ false
    → waiting_frames (queue ++ f ∷ []) ≡ waiting_frames queue ++ f ∷ []
unfolding waiting_frames
waiting-full [] queue e = ground arith
waiting-full (b ∷ f) queue e = waiting-append (b ∷ f) queue

Holds-append :
    (p : Position) (f : Frame) (queue : List Frame) → Holds p queue → Holds p (queue ++ f ∷ [])
unfolding Holds waited_front queue_is_empty
Holds-append popping f [] h = refl
Holds-append popping f (g ∷ queue) h = h
Holds-append (calling g) f [] h = ground arith
Holds-append (calling g) f (k ∷ queue) h = h
Holds-append broken f queue h = h
Holds-append not_started f queue h = tt
Holds-append testing f queue h = tt
Holds-append waiting f queue h = tt
Holds-append ended f queue h = tt

behind-append :
    (p : Position) (f : Frame) (queue : List Frame)
    → Holds p queue
    → behind p (queue ++ f ∷ []) ≡ behind p queue ++ f ∷ []
unfolding Holds behind queue_is_empty
behind-append popping f [] h = ground arith
behind-append popping f (g ∷ queue) h = refl
behind-append (calling g) f queue h = refl
behind-append broken f queue h = refl
behind-append not_started f queue h = refl
behind-append testing f queue h = refl
behind-append waiting f queue h = refl
behind-append ended f queue h = refl

abbrev server :
    Position
    → List Frame
    → Option Frame
    → (stop cb : Bool) → (pushed delivered : List Frame) → Server
server p queue checked stop cb pushed delivered = record {
  stop_working = stop;
  queue = queue;
  on_frame_cb = cb;
  position = p;
  checked = checked;
  pushed = pushed;
  delivered = delivered;
}

module _ (queue : List Frame) (checked : Option Frame) (stop cb : Bool)
    (pushed delivered : List Frame) where
  started :
      (p : Position)
      → IsOrderly (server p queue checked stop cb pushed delivered)
      → IsOrderly (start_server (server p queue checked stop cb pushed delivered))
  unfolding start_server Holds behind
  started not_started o = record {
    holds = tt;
    order = o.order;
    few = o.few;
    full = o.full;
    listens = o.listens;
  }
  started testing o = o
  started waiting o = o
  started popping o = o
  started ended o = o
  started broken o = o
  started (calling f) o = o

module _ (p : Position) (stop cb : Bool) (pushed delivered : List Frame) where
  checked_in :
      (f : Frame) (queue : List Frame) (checked : Option Frame)
      → IsOrderly (server p queue checked stop cb pushed delivered)
      → IsOrderly (check_buffer f (server p queue checked stop cb pushed delivered))
  unfolding check_buffer queue_is_empty waiting_frames
  checked_in f queue (some g) o = o
  checked_in [] queue none o = o
  checked_in (b ∷ f) (g ∷ queue) none o = o
  checked_in (b ∷ f) [] none o = record {
    holds = o.holds;
    order = o.order;
    few = omega arith;
    full = refl;
    listens = o.listens;
  }

  pushed_in :
      (queue : List Frame) (checked : Option Frame)
      → IsOrderly (server p queue checked stop cb pushed delivered)
      → IsOrderly (push_checked (server p queue checked stop cb pushed delivered))
  unfolding push_checked queue_push
  pushed_in queue none o = o
  pushed_in queue (some f) o = record {
    holds = Holds-append p f queue o.holds;
    order =
        ap (λ fs. fs ++ f ∷ []) o.order
        ∙ append_assoc delivered (waiting_frames (behind p queue)) (f ∷ [])
        ∙ ap (◌++◌ delivered) (
            sym (
              ap waiting_frames (behind-append p f queue o.holds)
              ∙ waiting-full f (behind p queue) o.full));
    few =
        let few = o.few in
        let w = ap length (waiting-full f queue o.full) in
        omega (arith, length-append (waiting_frames queue) (f ∷ []));
    full = tt;
    listens = o.listens;
  }

wake_up_all-IsOrderly : (s : Server) → IsOrderly s → IsOrderly (wake_up_all s)
unfolding wake_up_all queue_push waiting_frames
wake_up_all-IsOrderly s o =
    let a = waiting-append [] s.queue in
    let z = append-nil (waiting_frames s.queue) in
    record {
      holds = Holds-append s.position [] s.queue o.holds;
      order =
          o.order
          ∙ ap (λ fs. s.delivered ++ fs)
              (sym (
                ap waiting_frames (behind-append s.position [] s.queue o.holds)
                ∙ waiting-append [] (behind s.position s.queue)
                ∙ append-nil _));
      few = let f = o.few in ground arith;
      full = o.full;
      listens = o.listens;
    }

module _ (checked : Option Frame) (stop cb : Bool) (pushed delivered : List Frame) where
  stepped :
      (p : Position) (queue : List Frame)
      → IsOrderly (server p queue checked stop cb pushed delivered)
      → IsOrderly (thread_step (server p queue checked stop cb pushed delivered))
  unfolding thread_step waited_front queue_pop Holds behind waiting_frames
  stepped not_started queue o = o
  stepped testing queue o = elim (Bool-cases stop) [
    | inl e ↦
        rw e
          (record { holds = tt; order = o.order; few = o.few; full = o.full; listens = o.listens })
    | inr e ↦
        rw e
          (record { holds = tt; order = o.order; few = o.few; full = o.full; listens = o.listens })
  ]
  stepped waiting [] o = o
  stepped waiting (f ∷ queue) o = record {
    holds = refl;
    order = o.order;
    few = o.few;
    full = o.full;
    listens = o.listens;
  }
  stepped (calling f) [] o = let h = o.holds in ground arith
  stepped (calling f) (g ∷ queue) o = record {
    holds = refl;
    order =
        let h = o.holds in
        let l = o.listens in
        let e = o.order in
        let a = append_assoc delivered (f ∷ []) (waiting_frames queue) in ground arith;
    few = o.few;
    full = o.full;
    listens = o.listens;
  }
  stepped popping [] o = let h = o.holds in ground arith
  stepped popping (f ∷ queue) o = record {
    holds = tt;
    order = o.order;
    few = let few = o.few in ground arith;
    full = o.full;
    listens = o.listens;
  }
  stepped ended queue o = o
  stepped broken queue o = o

take_step-IsOrderly : (step : Step) (s : Server) → IsOrderly s → IsOrderly (take_step step s)
unfolding take_step
take_step-IsOrderly starts s o =
    started s.queue s.checked s.stop_working s.on_frame_cb s.pushed s.delivered s.position o
take_step-IsOrderly (checks f) s o =
    checked_in s.position s.stop_working s.on_frame_cb s.pushed s.delivered f s.queue s.checked o
take_step-IsOrderly pushes s o =
    pushed_in s.position s.stop_working s.on_frame_cb s.pushed s.delivered s.queue s.checked o
take_step-IsOrderly stops s o = record {
  holds = o.holds;
  order = o.order;
  few = o.few;
  full = o.full;
  listens = o.listens;
}
take_step-IsOrderly wakes s o = wake_up_all-IsOrderly s o
take_step-IsOrderly runs s o =
    stepped s.checked s.stop_working s.on_frame_cb s.pushed s.delivered s.position s.queue o

pub take_steps-IsOrderly :
    (steps : List Step) (s : Server) → IsOrderly s → IsOrderly (take_steps steps s)
unfolding take_steps
take_steps-IsOrderly [] s o = o
take_steps-IsOrderly (step ∷ steps) s o =
    take_steps-IsOrderly steps (take_step step s) (take_step-IsOrderly step s o)

pub listening-IsOrderly : IsOrderly (set_on_frame_callback true new_server)
unfolding set_on_frame_callback Holds behind waiting_frames
listening-IsOrderly = record {
  holds = tt;
  order = refl;
  few = omega arith;
  full = tt;
  listens = refl;
}
