-- ===== src/Tests/Streams.antt =====
-- The theorems on modules/webrtc at concrete ends of a stream.
use aitt.Base.{
  ltb, ◌&&◌, ◌==◌, ℕ, ◌≡◌, ◌≢◌, ◌++◌, refl, true, false, List, [], ◌∷◌, none, some, if◌then◌else◌,
  Text, codes, text_eq, arith, length, ◌≤◌,
}
use aitt.Types.{err, invalid_arg, resource_busy_err}
use aitt.Webrtc.Library.{Call, Request, Webrtc, add_ice_candidate, webrtc_set_remote_description}
use aitt.Webrtc.States.{state_negotiating}
use aitt.Webrtc.Stream
use aitt.Webrtc.Stream.{Stream, fresh, call_of}
use aitt.Webrtc.Stream.Book
use aitt.Webrtc.Stream.Book.{Operation, adds, updates, changes}
use aitt.Webrtc.Stream.Refine.{book, run, run_refines}
use aitt.Webrtc.Stream.Candidates.{IsDistinct}
use aitt.Webrtc.Stream.Ids.{ids}
use aitt.Webrtc.Frames.{
  Step, starts, checks, pushes, runs, take_steps, broken, ended, run_thread, wake_up_all,
  set_stop_working, Frame,
}
use aitt.Webrtc.Frames.Ending.{listening, take_steps-delivered, run_thread-ended}
use aitt.Webrtc.Message.{StreamInfo, is_valid_stream_info, read_stream_info, discovery_message}
use aitt.Webrtc.Message.Laws.{read-discovery_message}
use aitt.Webrtc.Manager.{Manager, new_manager, camera, handle_removed_client}
use aitt.Webrtc.Manager.Ends.{handle_msg, get_discovery_message}
use aitt.Webrtc.Manager.Listening.{VideoInfo, on_signal_hand_off, on_signal_hand_off_unsupported}
use aitt.Webrtc.Manager.Camera.{in_sync}
use aitt.Webrtc.Manager.Sources.{HasOne}
use aitt.Webrtc.Handshake.{handle_msg_foreign}
use aitt.Webrtc.Handshake.Meeting.{meeting-ids, restart-ignored}
use aitt.Webrtc.Module.{Module, start, set_config}
use aitt.Webrtc.Module.Config.{config_all, config_all-in_sync, config_all-HasOne}
use aitt.Webrtc.Module.Started.{stops, used_all, set_config_busy}
use aitt.Tests.Buffers.{buffers, buffers-IsFlexbuffers}

-- A library that refuses a description at its first call, and the candidate "b" before the fifth.
abbrev code_of : List Call → Request → ℕ
code_of calls (webrtc_set_remote_description t) = if length calls == 0 then 1 else 0
code_of calls (add_ice_candidate t) = if text_eq t (codes "b") && ltb (length calls) 4 then 1 else 0
code_of calls _ = 0

abbrev library : Webrtc
library = record { returns = λ calls c. code_of calls c.request; gives = λ calls c. 7 }

abbrev candidates : List Text
candidates = codes "a" ∷ codes "b" ∷ codes "a" ∷ codes "b" ∷ codes "b" ∷ []

abbrev operations : List Operation
operations =
    adds (some state_negotiating) (codes "sdp") candidates
    ∷ changes state_negotiating
    ∷ updates (some state_negotiating) (some state_negotiating) candidates
    ∷ []

run_refines_example : book (run library operations fresh) ≡ Book.run library operations (book fresh)
run_refines_example = run_refines library operations fresh

fresh-IsDistinct : IsDistinct fresh.stored_peer_ice_candidates
unfolding IsDistinct
fresh-IsDistinct = tt

abbrev steps : List Step
steps = starts ∷ checks (codes "f") ∷ runs ∷ pushes ∷ runs ∷ runs ∷ []

take_steps-delivered_example :
    let s = take_steps steps listening in
    ((rest : List Frame) × ((s.pushed ≡ s.delivered ++ rest) × (length rest ≤ 1)))
    × (s.position ≢ broken)
take_steps-delivered_example = take_steps-delivered steps

run_thread-ended_example :
    (run_thread 4 (wake_up_all (set_stop_working (take_steps steps listening)))).position ≡ ended
unfolding take_steps
run_thread-ended_example = run_thread-ended steps (λ e. ground arith)

abbrev info : StreamInfo
info = record { id = codes "1"; peer_id = codes "2"; sdp = codes "v"; ice_candidates = candidates }

read-discovery_message_example :
    (is_valid_stream_info buffers (discovery_message buffers info) ≡ true)
    × (read_stream_info buffers (discovery_message buffers info) ≡ info)
read-discovery_message_example = read-discovery_message buffers buffers-IsFlexbuffers info

abbrev source : Manager
source =
    record (new_manager library true (codes "t/SRC") (codes "t/SINK") (codes "1") (codes "x")
      fresh) { source_name = camera }

-- A sink that the client "s" has started.
abbrev sink : Manager
sink =
    let m =
      new_manager library false (codes "t/SINK") (codes "t/SRC") (codes "2") (codes "y") fresh in
    record m { peer_aitt_id = codes "s"; stream = record m.stream { id = codes "2y" } }

handle_msg_foreign_example :
    (handle_msg library none none buffers (codes "z") (codes "m") sink ≡ sink)
    × (handle_removed_client (codes "z") sink ≡ sink)
unfolding new_manager
handle_msg_foreign_example =
    handle_msg_foreign library buffers none none (codes "z") sink (λ e. ground arith)
      (λ e. ground arith) (codes "m")

meeting-ids_example :
    let met =
      handle_msg library none none buffers
        (codes "k")
        (get_discovery_message buffers sink)
        source in
    let answered =
      handle_msg library none none buffers (codes "s") (get_discovery_message buffers met) sink in
    let own = source.thread_id ++ source.address in
    (ids met.stream ≡ (own, sink.stream.id))
    × ((ids answered.stream ≡ (sink.stream.id, own)) × (met.peer_aitt_id ≡ codes "k"))
unfolding new_manager Stream.add_data_channel
meeting-ids_example =
    meeting-ids library buffers none none none none (codes "k") (codes "s") sink source
      buffers-IsFlexbuffers refl refl refl refl refl

abbrev met_source : Manager
met_source = record source {
  peer_aitt_id = codes "k";
  stream = record source.stream { id = codes "1x" };
}

abbrev met_sink : Manager
met_sink = record sink { stream = record sink.stream { peer_id = codes "1x" } }

restart-ignored_example :
    let stopped =
      handle_msg library none none buffers (codes "s") (buffers.build_string (codes "STOP")) sink in
    (stopped.stream ≡ Stream.destroy sink.stream)
    × (handle_msg library none none buffers
          (codes "s")
          (buffers.build_string (codes "START"))
          stopped
        ≡ stopped)
unfolding new_manager
restart-ignored_example =
    restart-ignored library buffers none none (codes "s") (codes "s") sink buffers-IsFlexbuffers
      refl refl (λ e. ground arith)

abbrev filmed : Module
filmed = record {
  manager = source;
  discovery = record {
    is_running = true;
    id = codes "s";
    callback_handle = 1;
    discovery_map = [];
    callbacks = [];
    calls = [];
  };
  discovery_cb = 1;
  state_callback = false;
  states = [];
}

abbrev configs : List (Text × Text)
configs =
    (codes "SOURCE_TYPE", codes "NULL")
    ∷ (codes "WIDTH", codes "640")
    ∷ (codes "HEIGHT", codes "480")
    ∷ (codes "SOURCE_TYPE", codes "CAMERA")
    ∷ (codes "HEIGHT", codes "0")
    ∷ []

config_all-in_sync_example : in_sync library (config_all library configs filmed).manager ≡ true
unfolding in_sync text_eq new_manager Stream.add_data_channel
config_all-in_sync_example = config_all-in_sync library configs filmed refl

filmed-HasOne : HasOne library filmed.manager
unfolding HasOne new_manager Stream.add_data_channel
filmed-HasOne = refl

config_all-HasOne_example : HasOne library (config_all library configs filmed).manager
config_all-HasOne_example =
    config_all-HasOne library configs filmed (λ calls c e. ground arith) filmed-HasOne

set_config_busy_example :
    let m' = used_all library buffers (stops ∷ []) (start buffers true filmed).0 in
    set_config library (codes "WIDTH") (codes "640") m' ≡ (m', err resource_busy_err)
set_config_busy_example =
    set_config_busy library buffers (stops ∷ []) (codes "WIDTH") (codes "640") filmed

abbrev bgr : VideoInfo
bgr = record { name = codes "BGR"; width = 640; height = 480 }

on_signal_hand_off_unsupported_example :
    on_signal_hand_off library (some bgr) (some (codes "f")) sink ≡ (sink, err invalid_arg)
unfolding text_eq new_manager
on_signal_hand_off_unsupported_example =
    on_signal_hand_off_unsupported library bgr (some (codes "f")) sink refl refl refl refl
