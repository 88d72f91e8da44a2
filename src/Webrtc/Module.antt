-- ===== src/Webrtc/Module.antt =====
-- modules/webrtc/Module.cc: a stream of a topic, whose ends find each other by the discovery.
pub mod Config
pub mod Started
use aitt.Base.{
  ℕ, suc, Bool, true, false, List, [], ◌∷◌, Option, none, some, if◌then◌else◌, not, ◌&&◌, Text,
  codes, text_eq, ℤ, pos, negsuc, stoi,
}
use aitt.Types.{Result, ok, err, Error, invalid_arg, resource_busy_err}
use aitt.Flex.{Flexbuffers}
use aitt.Discovery.{Discovery, add_discovery_cb, remove_discovery_cb, update_discovery_msg}
use aitt.Tcp.Peers.{will_leave_network}
use aitt.Webrtc.Library.{Webrtc}
use aitt.Webrtc.States.{NativeState}
use aitt.Webrtc.Frames.{set_on_frame_callback}
use aitt.Webrtc.Stream.Events.{Event}
use aitt.Webrtc.Manager
use aitt.Webrtc.Manager.{
  Manager, Notice, candidate_added, stream_state, Callbacks, set_width, set_height, set_frame_rate,
  set_media_format, set_source_type, set_decode_codec, set_display, handle_removed_client,
}
use aitt.Webrtc.Manager.Ends.{new_sink, new_source, get_discovery_message, handle_msg, push_packet}
use aitt.Webrtc.Manager.Listening.{on_event}

-- `AittStreamState`
pub data UserState : Type 0 where
  user_init user_ready user_playing user_underflow user_overflow : UserState

-- `states` lists what the state callback was called with, the newest first.
pub record Module : Type 0 where
  pub manager : Manager
  pub discovery : Discovery
  pub discovery_cb : ℕ
  pub state_callback : Bool
  pub states : List UserState

abbrev all_callbacks : Callbacks
all_callbacks = record {
  stream_start_cb = true;
  stream_stop_cb = true;
  stream_state_cb = true;
  ice_candidate_added_cb = true;
}

-- `cb` names `DiscoveryMessageCallback`, and `last_id` is the counter of the discovery's callbacks.
unfoldable pub new_module :
    Webrtc
    → (is_source : Bool) → (topic thread_id address : Text) → (last_id cb : ℕ) → Discovery
    → Result Module
new_module lib is_source topic thread_id address last_id cb discovery =
    elim (if is_source
      then new_source lib topic thread_id address
      else new_sink lib topic thread_id address) [
        | err e ↦ err e
        | ok m ↦
            let (d, id) = add_discovery_cb last_id m.watching_topic cb discovery in
            ok (record {
              manager = record m { callbacks = all_callbacks };
              discovery = d;
              discovery_cb = id;
              state_callback = false;
              states = [];
            })
      ]

-- The destructor, up to the members that it deletes.
unfoldable pub delete_module : Module → Module
delete_module m = record m { discovery = remove_discovery_cb m.discovery_cb m.discovery }

abbrev pub with_manager : Manager → Module → Module
with_manager manager m = record m { manager = manager }

abbrev pub is_positive : ℤ → Bool
is_positive (pos (ℕ.suc n)) = true
is_positive (pos ℕ.zero) = false
is_positive (negsuc n) = false

abbrev pub number_then :
    Option ℤ → (ℤ → Manager × Result (Unit {0})) → Manager → Manager × Result (Unit {0})
number_then none f m = (m, err invalid_arg)
number_then (some n) f m = f n

-- A positive number, or an unknown key.
abbrev pub positive_then : Option ℤ → (ℤ → Manager) → Manager → Manager × Result (Unit {0})
positive_then value f m =
    number_then value (λ n. if is_positive n then (f n, ok tt) else (m, err invalid_arg)) m

-- The body of the `try` block.
unfoldable pub configure : Webrtc → (key value : Text) → Manager → Manager × Result (Unit {0})
configure lib key value m =
    if text_eq key (codes "WIDTH")
    then positive_then (stoi value) (λ n. set_width lib n m) m
    else if text_eq key (codes "HEIGHT")
    then positive_then (stoi value) (λ n. set_height lib n m) m
    else if text_eq key (codes "FRAME_RATE")
    then number_then (stoi value) (λ n. (set_frame_rate lib n m, ok tt)) m
    else if text_eq key (codes "MEDIA_FORMAT")
    then set_media_format lib value m
    else if text_eq key (codes "SOURCE_TYPE")
    then (set_source_type lib value m, ok tt)
    else if text_eq key (codes "DECODE_CODEC")
    then set_decode_codec lib value m
    else (m, err invalid_arg)

-- Whatever is caught becomes INVALID_ARG.
abbrev pub caught : Manager × Result (Unit {0}) → Module → Module × Result (Unit {0})
caught (m', ok u) m = (with_manager m' m, ok tt)
caught (m', err e) m = (with_manager m' m, err invalid_arg)

unfoldable pub set_config : Webrtc → (key value : Text) → Module → Module × Result (Unit {0})
unfolding configure
set_config lib key value m =
    if m.manager.is_started
    then (m, err resource_busy_err)
    else caught (configure lib key value m.manager) m

-- `SetConfig` with a pointer.
unfoldable pub set_config_object : Text → ℕ → Module → Module × Result (Unit {0})
set_config_object key obj m =
    if m.manager.is_started
    then (m, err resource_busy_err)
    else if text_eq key (codes "DISPLAY_OBJECT")
    then (with_manager (set_display obj m.manager) m, ok tt)
    else (m, err invalid_arg)

-- `published` tells whether the discovery can publish.
module _ (flex : Flexbuffers) (published : Bool) where
  unfoldable pub announce : Text → Module → Module × Result (Unit {0})
  announce msg m =
      let (d, r) = update_discovery_msg flex published m.manager.topic msg m.discovery in
      (record m { discovery = d }, r)

  unfoldable pub start : Module → Module × Result (Unit {0})
  unfolding announce
  start m =
      let (m', told) = announce (flex.build_string (codes "START")) m in
      let (manager, r) = Manager.start told m.manager in (with_manager manager m', r)

  -- `OnStreamStopped`, for whom `StreamManager::Stop` is called by.
  unfoldable pub stop_manager : Module → Module × Result (Unit {0})
  unfolding announce
  stop_manager m =
      let (m', told) = announce (flex.build_string (codes "STOP")) m in
      let (manager, r) = Manager.stop told m.manager in (with_manager manager m', r)

  unfoldable pub on_stream_state : Text → Module → Module
  on_stream_state state m =
      if not m.state_callback
      then m
      else if text_eq state (codes "IDLE")
      then record m { states = user_init ∷ m.states }
      else if text_eq state (codes "PLAYING")
      then record m { states = user_playing ∷ m.states }
      else if text_eq state (codes "UNDERFLOW")
      then record m { states = user_underflow ∷ m.states }
      else if text_eq state (codes "OVERFLOW")
      then record m { states = user_overflow ∷ m.states }
      else m

  unfoldable pub on_notice : Notice → Module → Module
  unfolding announce on_stream_state
  on_notice candidate_added m = (announce (get_discovery_message flex m.manager) m).0
  on_notice (stream_state state) m = on_stream_state state m

  unfoldable pub on_notices : List Notice → Module → Module
  unfolding on_notice
  on_notices [] m = m
  on_notices (notice ∷ notices) m = on_notice notice (on_notices notices m)

  -- An event of the stream, with what the manager tells the module of it.
  unfoldable pub on_stream_event : Webrtc → (has_buffer : Bool) → Event → Module → Module
  unfolding on_notices
  on_stream_event lib has_buffer event m =
      let m' = on_event lib has_buffer event m.manager in
      on_notices m'.notices (with_manager (record m' { notices = [] }) m)

-- `Module::Stop` does nothing.
unfoldable pub stop : Module → Module
stop m = m

unfoldable pub push : Webrtc → ℕ → Module → Module × Option ℕ
push lib packet m =
    let (manager, code) = push_packet lib packet m.manager in (with_manager manager m, code)

unfoldable pub set_state_callback : Bool → Module → Module
set_state_callback set m = record m { state_callback = set }

-- Only a sink hands its frames on. `SetOnFrameCallback` of a source stores what nobody calls.
-- What `std::bind` makes is a function, whatever it is given.
unfoldable pub set_receive_callback : Module → Module
set_receive_callback m =
    if m.manager.is_source
    then m
    else with_manager
        (record m.manager { request_server = set_on_frame_callback true m.manager.request_server })
        m

unfoldable pub discovery_message_callback :
    Webrtc
    → Flexbuffers
    → (state again : Option NativeState) → (client_id status : Text) → (msg : Text) → Module
    → Module
discovery_message_callback lib flex state again client_id status msg m =
    with_manager
      (if text_eq status will_leave_network
        then handle_removed_client client_id m.manager
        else handle_msg lib state again flex client_id msg m.manager)
      m
