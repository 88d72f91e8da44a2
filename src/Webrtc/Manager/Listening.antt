-- ===== src/Webrtc/Manager/Listening.antt =====
-- modules/webrtc/SinkStreamManager.cc and SrcStreamManager.cc: what the ends do when their stream
-- tells them something, and the frames of the sink.
use aitt.Base.{
  ℕ, suc, ◌%◌, ◌==◌, Bool, true, false, Option, none, some, if◌then◌else◌, ◌||◌, Text, pos, ◌≡◌, ap,
  refl, text_eq, codes,
}
use aitt.Types.{Result, ok, err, invalid_arg}
use aitt.Webrtc.Library.{Webrtc}
use aitt.Webrtc.States.{
  StreamState, idle, negotiating, playing, Signaling, have_remote_offer, stream_to_str,
  source_buffer_state_to_str,
}
use aitt.Webrtc.Frames.{Frame, push_buffer}
use aitt.Webrtc.Stream.{create_offer_async, create_answer_async, print_stats}
use aitt.Webrtc.Stream.Peer.{set_local_description}
use aitt.Webrtc.Stream.Events.{
  Event, state_changed, signaling_state, ice_candidate, ice_gathering, ice_connection,
  encoded_frame, track_added, source_buffer, offer_created, answer_created,
}
use aitt.Webrtc.Manager.{
  Manager, stream_state, candidate_added, tell, with_stream, set_media_format, set_width,
  set_height, is_supported_format,
}

abbrev pub is_negotiating : StreamState → Bool
is_negotiating idle = false
is_negotiating negotiating = true
is_negotiating playing = false

abbrev pub is_remote_offer : Signaling → Bool
is_remote_offer have_remote_offer = true
is_remote_offer _ = false

-- What `gst_video_info_from_caps` gives.
pub record VideoInfo : Type 0 where
  pub name : Text
  pub width : ℕ
  pub height : ℕ

module _ (lib : Webrtc) where
  unfoldable pub on_stream_state_changed : StreamState → Manager → Manager
  unfolding stream_to_str
  on_stream_state_changed state m =
      let m' = tell m.callbacks.stream_state_cb (stream_state (stream_to_str state)) m in
      if is_negotiating state
      then (if m.is_source then m' else with_stream (create_offer_async lib m'.stream).0 m')
      else m'

  unfoldable pub on_signaling_state_notify : Signaling → Manager → Manager
  on_signaling_state_notify state m =
      if is_remote_offer state then with_stream (create_answer_async lib m.stream).0 m else m

  -- `OnOfferCreated` of the sink and `OnAnswerCreated` of the source.
  unfoldable pub on_description_created : Text → Manager → Manager
  on_description_created sdp m = with_stream (set_local_description lib sdp m.stream).0 m

  -- `has_buffer` tells whether the packet holds a buffer of the pipeline.
  unfoldable pub on_encoded_frame : (has_buffer : Bool) → Manager → Manager
  on_encoded_frame has_buffer m =
      let m' = record m { frame_received = suc m.frame_received } in
      if has_buffer
      then (if m'.frame_received % 100 == 0 then with_stream (print_stats lib m'.stream) m' else m')
      else m

  -- The callbacks that the constructors set. The others are not set by anyone.
  unfoldable pub on_event : (has_buffer : Bool) → Event → Manager → Manager
  unfolding on_stream_state_changed on_signaling_state_notify on_description_created
      on_encoded_frame source_buffer_state_to_str
  on_event has_buffer (state_changed state) m = on_stream_state_changed state m
  on_event has_buffer (signaling_state state) m = on_signaling_state_notify state m
  on_event has_buffer (ice_candidate candidate) m =
      tell m.callbacks.ice_candidate_added_cb candidate_added m
  on_event has_buffer (ice_gathering state) m = m
  on_event has_buffer (ice_connection state) m = m
  on_event has_buffer (encoded_frame packet) m = on_encoded_frame has_buffer m
  on_event has_buffer (track_added id) m = record m { frame_received = 0 }
  on_event has_buffer (source_buffer state) m =
      tell m.callbacks.stream_state_cb (stream_state (source_buffer_state_to_str state)) m
  on_event has_buffer (offer_created sdp) m = on_description_created sdp m
  on_event has_buffer (answer_created sdp) m = on_description_created sdp m

  unfoldable pub handle_frame : Option Frame → Manager → Manager
  handle_frame none m = m
  handle_frame (some frame) m = record m { request_server = push_buffer frame m.request_server }

  -- `OnSignalHandOff`. `info` is `none` where the pad has no caps, or none that can be read. What
  -- `SetMediaFormat` throws leaves it.
  unfoldable pub on_signal_hand_off :
      Option VideoInfo → Option Frame → Manager → Manager × Result (Unit {0})
  unfolding handle_frame set_media_format set_width set_height
  on_signal_hand_off none buffer m = (m, ok tt)
  on_signal_hand_off (some info) buffer m =
      let (m1, set) = set_media_format lib info.name m in
      if info.width == 0 || info.height == 0 then (m, ok tt) else elim set [
        | err e ↦ (m1, err e)
        | ok u ↦ (
          handle_frame buffer
              (set_height lib (pos info.height) (set_width lib (pos info.width) m1)),
          ok tt,
        )
      ]

format_refused :
    (lib : Webrtc) (format : Text) (m : Manager)
    → text_eq m.format format ≡ false
    → text_eq format (codes "VP8") ≡ false
    → text_eq format (codes "H264") ≡ false
    → set_media_format lib format m ≡ (m, err invalid_arg)
unfolding set_media_format is_supported_format
format_refused lib format m new vp8 h264 = rw (new, vp8, h264) refl

-- A video whose format has another name than VP8 and H264, as a decoded one has: the hand-off throws
-- INVALID_ARG, the manager is as before, and the frame is not pushed.
pub on_signal_hand_off_unsupported :
    (lib : Webrtc) (info : VideoInfo) (buffer : Option Frame) (m : Manager)
    → (info.width == 0 || info.height == 0) ≡ false
    → text_eq m.format info.name ≡ false
    → text_eq info.name (codes "VP8") ≡ false
    → text_eq info.name (codes "H264") ≡ false
    → on_signal_hand_off lib (some info) buffer m ≡ (m, err invalid_arg)
unfolding on_signal_hand_off
on_signal_hand_off_unsupported lib info buffer m size new vp8 h264 =
    let r = format_refused lib info.name m new vp8 h264 in
    rw (size, ap (λ x. x.1) r) (ap (λ x. (x.0, err invalid_arg)) r)
