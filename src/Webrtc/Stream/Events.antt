-- ===== src/Webrtc/Stream/Events.antt =====
-- modules/webrtc/WebRtcStream.cc: the callbacks that the library calls, and WebRtcEventHandler.h: to
-- whom they pass it on.
use aitt.Base.{ℕ, ◌==◌, Bool, [], ◌∷◌, ◌++◌, Option, none, some, if◌then◌else◌, Text}
use aitt.Webrtc.Library.{Webrtc, webrtc_set_display}
use aitt.Webrtc.States.{
  NativeState, NativeSignaling, NativeGathering, NativeConnection, NativeBuffer, StreamState,
  Signaling, IceGathering, IceConnection, SourceBufferState, to_stream_state, to_signaling_state,
  to_ice_gathering_state, to_ice_connection_state, to_source_buffer_state,
}
use aitt.Webrtc.Stream.{Stream, called}
use aitt.Webrtc.Stream.Peer.{set_peer_sdp, is_negotiating_state}

-- A call of a callback of the event handler, or of one that waits for a description.
pub data Event : Type 0 where
  state_changed : StreamState → Event
  signaling_state : Signaling → Event
  ice_candidate : Text → Event
  ice_gathering : IceGathering → Event
  ice_connection : IceConnection → Event
  encoded_frame : ℕ → Event
  track_added : ℕ → Event
  source_buffer : SourceBufferState → Event
  offer_created answer_created : Text → Event

-- `webrtc_media_type_e`
pub data MediaType : Type 0 where
  media_audio media_video : MediaType

-- What a callback tells: nothing where nobody listens.
abbrev pub told : Bool → Event → Option Event
told set event = if set then some event else none

module _ (lib : Webrtc) where
  unfoldable pub on_state_changed : NativeState → Stream → Stream × Option Event
  unfolding to_stream_state is_negotiating_state
  on_state_changed current s =
      let s' = if is_negotiating_state (some current) then (set_peer_sdp lib s).0 else s in
      (s', told s'.event_handler.on_state_changed (state_changed (to_stream_state current)))

unfoldable pub on_signaling_state_changed : NativeSignaling → Stream → Stream × Option Event
unfolding to_signaling_state
on_signaling_state_changed state s =
    (s, told s.event_handler.on_signaling_state_notify (signaling_state (to_signaling_state state)))

unfoldable pub on_ice_gathering_state_changed : NativeGathering → Stream → Stream × Option Event
unfolding to_ice_gathering_state
on_ice_gathering_state_changed state s = (
  s,
  told s.event_handler.on_ice_gathering_state_notify (ice_gathering (to_ice_gathering_state state)),
)

unfoldable pub on_ice_connection_state_changed : NativeConnection → Stream → Stream × Option Event
unfolding to_ice_connection_state
on_ice_connection_state_changed state s = (
  s,
  told s.event_handler.on_ice_connection_state_notify
      (ice_connection (to_ice_connection_state state)),
)

unfoldable pub on_ice_candidate : Text → Stream → Stream × Option Event
on_ice_candidate candidate s = (
  record s { ice_candidates = s.ice_candidates ++ candidate ∷ [] },
  told s.event_handler.on_ice_candidate (ice_candidate candidate),
)

unfoldable pub on_encoded_frame : MediaType → ℕ → Stream → Stream × Option Event
on_encoded_frame media_video packet s =
    (s, told s.event_handler.on_encoded_frame (encoded_frame packet))
on_encoded_frame media_audio packet s = (s, none)

unfoldable pub on_track_added : MediaType → ℕ → Stream → Stream × Option Event
on_track_added media_audio id s = (s, none)
on_track_added media_video id s =
    if s.display_object == 0
    then (s, told s.event_handler.on_track_added (track_added id))
    else (called (webrtc_set_display id s.display_object) s, none)

unfoldable pub on_buffer_state_changed : NativeBuffer → Stream → Stream × Option Event
unfolding to_source_buffer_state
on_buffer_state_changed state s =
    (s, told s.event_handler.on_source_buffer_state (source_buffer (to_source_buffer_state state)))

unfoldable pub on_offer_created : Text → Stream → Stream × Option Event
on_offer_created description s = (s, told s.on_offer_created_set (offer_created description))

unfoldable pub on_answer_created : Text → Stream → Stream × Option Event
on_answer_created description s = (s, told s.on_answer_created_set (answer_created description))
