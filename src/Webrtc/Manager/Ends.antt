-- ===== src/Webrtc/Manager/Ends.antt =====
-- modules/webrtc/SinkStreamManager.cc and SrcStreamManager.cc: the two ends of a stream, and how they
-- take the messages of the other one.
use aitt.Base.{
  ℕ, true, false, ◌++◌, Option, none, some, if◌then◌else◌, not, ◌&&◌, Text, codes, text_eq,
  is_empty,
}
use aitt.Types.{Result, ok, err}
use aitt.Flex.{Flexbuffers}
use aitt.Webrtc.Library.{Webrtc, source_camera}
use aitt.Webrtc.States.{NativeState}
use aitt.Webrtc.Message.{StreamInfo, is_valid_stream_info, read_stream_info, discovery_message}
use aitt.Webrtc.Frames.{start_server}
use aitt.Webrtc.Stream.{
  EventHandler, Stream, new_stream, attach_signals, activate_source, set_source_type,
  set_decode_codec, is_display_sink, push,
}
use aitt.Webrtc.Stream
use aitt.Webrtc.Stream.Peer.{add_peer_information, update_peer_information}
use aitt.Webrtc.Manager.{
  Manager, new_manager, with_stream, handle_removed_client, camera, media_packet,
}

abbrev sink_handler : EventHandler
sink_handler = record {
  on_state_changed = true;
  on_signaling_state_notify = false;
  on_ice_candidate = true;
  on_ice_gathering_state_notify = false;
  on_ice_connection_state_notify = false;
  on_encoded_frame = true;
  on_track_added = true;
  on_source_buffer_state = false;
}

abbrev source_handler : EventHandler
source_handler = record {
  on_state_changed = true;
  on_signaling_state_notify = true;
  on_ice_candidate = true;
  on_ice_gathering_state_notify = false;
  on_ice_connection_state_notify = false;
  on_encoded_frame = false;
  on_track_added = false;
  on_source_buffer_state = true;
}

module _ (lib : Webrtc) where
  -- The constructors, for a topic.
  unfoldable pub new_sink : (topic thread_id address : Text) → Result Manager
  new_sink topic thread_id address = elim (new_stream lib) [
    | err e ↦ err e
    | ok stream ↦
        let m =
          new_manager lib false (topic ++ codes "/SINK") (topic ++ codes "/SRC") thread_id address
            stream in
        let s0 = attach_signals false (record m.stream { event_handler = sink_handler }) in
        let s1 = (activate_source lib s0).0 in
        ok (with_stream (set_decode_codec lib m.decode_codec s1) m)
  ]

  unfoldable pub new_source : (topic thread_id address : Text) → Result Manager
  new_source topic thread_id address = elim (new_stream lib) [
    | err e ↦ err e
    | ok stream ↦
        let m =
          new_manager lib true (topic ++ codes "/SRC") (topic ++ codes "/SINK") thread_id address
            stream in
        let s0 = attach_signals true (record m.stream { event_handler = source_handler }) in
        let s1 = (activate_source lib (set_source_type source_camera s0)).0 in
        ok (record (with_stream s1 m) { source_name = camera })
  ]

  -- `Start` of the stream, and the id that it gets.
  abbrev started : Manager → Stream
  started m = record (Stream.start lib m.stream).0 { id = m.thread_id ++ m.address }

  unfoldable pub sink_add_stream : Text → Manager → Manager
  sink_add_stream discovery_id m = record (with_stream (started m) m) {
    peer_aitt_id = discovery_id;
  }

  unfoldable pub handle_start_stream : Text → Manager → Manager
  unfolding sink_add_stream
  handle_start_stream discovery_id m =
      let m1 = sink_add_stream discovery_id m in
      let m2 = record m1 {
        decode_pipeline = if is_display_sink m1.stream then m1.decode_pipeline else true;
        request_server = start_server m1.request_server;
      } in
      if is_empty m.peer_aitt_id then m2 else m

  unfoldable pub source_add_stream : Option NativeState → Text → StreamInfo → Manager → Manager
  source_add_stream state discovery_id info m =
      let s = record (started m) { peer_id = info.id } in
      record (with_stream (add_peer_information lib state info.sdp info.ice_candidates s).0 m) {
        peer_aitt_id = discovery_id;
      }

  -- What `webrtc_get_state` tells, the first time and the second.
  module _ (state again : Option NativeState) where
    abbrev pub updated : StreamInfo → Manager → Manager
    updated info m =
        with_stream (update_peer_information lib state again info.ice_candidates m.stream) m

    unfoldable pub sink_update_stream_info : Text → StreamInfo → Manager → Manager
    sink_update_stream_info discovery_id info m =
        let first =
          (add_peer_information lib state info.sdp info.ice_candidates
            (record m.stream { peer_id = info.id })).0 in
        if not (text_eq m.peer_aitt_id discovery_id)
        then m
        else if not (text_eq info.peer_id m.stream.id)
        then m
        else if is_empty m.stream.peer_id
        then with_stream first m
        else updated info m

    unfoldable pub source_update_stream_info : Text → StreamInfo → Manager → Manager
    unfolding source_add_stream
    source_update_stream_info discovery_id info m =
        if is_empty m.peer_aitt_id
        then source_add_stream state discovery_id info m
        else if text_eq m.peer_aitt_id discovery_id && not (text_eq info.peer_id m.stream.id)
        then updated info m
        else m

    unfoldable pub handle_stream_info : Flexbuffers → Text → Text → Manager → Manager
    unfolding sink_update_stream_info source_update_stream_info
    handle_stream_info flex discovery_id message m =
        let info = read_stream_info flex message in
        if not (is_valid_stream_info flex message)
        then m
        else if m.is_source
        then source_update_stream_info discovery_id info m
        else sink_update_stream_info discovery_id info m

    unfoldable pub handle_stream_state : Flexbuffers → Text → Text → Manager → Manager
    unfolding handle_start_stream handle_removed_client
    handle_stream_state flex discovery_id message m =
        let told = flex.root_string message in
        if text_eq told (codes "START") && not m.is_source
        then handle_start_stream discovery_id m
        else if text_eq told (codes "STOP")
        then handle_removed_client discovery_id m
        else m

    unfoldable pub handle_msg : Flexbuffers → Text → Text → Manager → Manager
    unfolding handle_stream_info handle_stream_state
    handle_msg flex discovery_id message m =
        if flex.is_string message
        then handle_stream_state flex discovery_id message m
        else if flex.is_vector message
        then handle_stream_info flex discovery_id message m
        else m

  -- `none` is the -1 of a sink and of a source of another kind.
  unfoldable pub push_packet : ℕ → Manager → Manager × Option ℕ
  push_packet packet m =
      let (s, code) = push lib packet m.stream in
      if m.is_source && text_eq m.source_name media_packet
      then (with_stream s m, some code)
      else (m, none)

unfoldable pub get_discovery_message : Flexbuffers → Manager → Text
unfolding discovery_message
get_discovery_message flex m = discovery_message flex (record {
  id = m.stream.id;
  peer_id = m.stream.peer_id;
  sdp = m.stream.local_description;
  ice_candidates = m.stream.ice_candidates;
})
