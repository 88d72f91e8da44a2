-- ===== src/Webrtc/Manager/Started.antt =====
-- modules/webrtc/StreamManager.cc and its two kinds: what they do leaves a started end started.
use aitt.Base.{
  arith, suc, ◌%◌, ◌==◌, ◌≡◌, refl, Bool, true, false, ◌∷◌, Option, Text, codes, text_eq, is_empty,
  if◌then◌else◌, not, ◌&&◌,
}
use aitt.Types.{Result, ok, err}
use aitt.Flex.{Flexbuffers}
use aitt.Webrtc.Library.{Webrtc}
use aitt.Webrtc.States.{NativeState, StreamState, stream_to_str, source_buffer_state_to_str}
use aitt.Webrtc.Message.{StreamInfo, is_valid_stream_info, read_stream_info}
use aitt.Webrtc.Stream
use aitt.Webrtc.Stream.Events.{
  Event, state_changed, signaling_state, ice_candidate, ice_gathering, ice_connection,
  encoded_frame, track_added, source_buffer, offer_created, answer_created,
}
use aitt.Webrtc.Manager
use aitt.Webrtc.Manager.{
  Manager, Notice, tell, with_stream, candidate_added, stream_state, handle_removed_client,
  media_packet,
}
use aitt.Webrtc.Manager.Ends.{
  handle_msg, handle_stream_info, handle_stream_state, handle_start_stream, sink_add_stream,
  source_add_stream, source_update_stream_info, sink_update_stream_info, updated,
}
use aitt.Webrtc.Manager.Listening.{
  on_event, on_stream_state_changed, on_signaling_state_notify, on_description_created,
  on_encoded_frame, is_negotiating, is_remote_offer,
}

-- A property that both ways of a test have.
pub both {ℓ κ} :
    {A : Type ℓ} (P : A → Type κ) (b : Bool) (x y : A) → P x → P y → P (if b then x else y)
both P true x y h k = h
both P false x y h k = k

pub first {ℓ} : {A : Type ℓ} (b : Bool) (x y : A) → b ≡ true → (if b then x else y) ≡ x
first true x y h = refl
first false x y h = ground arith

abbrev pub IsStarted : Manager → Type 0
IsStarted m = m.is_started ≡ true

module _ (lib : Webrtc) (flex : Flexbuffers) (state again : Option NativeState) (id : Text)
    (m : Manager) (h : m.is_started ≡ true) where
  pub removed-started : IsStarted (handle_removed_client id m)
  unfolding handle_removed_client
  removed-started =
      both IsStarted (text_eq m.peer_aitt_id id) (with_stream (Stream.destroy m.stream) m) m h h

  start-started : IsStarted (handle_start_stream lib id m)
  unfolding handle_start_stream sink_add_stream
  start-started = both IsStarted (is_empty m.peer_aitt_id) _ m h h

  state-started : (msg : Text) → IsStarted (handle_stream_state lib state again flex id msg m)
  unfolding handle_stream_state
  state-started msg =
      let told = flex.root_string msg in
      both IsStarted (text_eq told (codes "START") && not m.is_source)
        (handle_start_stream lib id m) _ start-started
        (both IsStarted (text_eq told (codes "STOP")) (handle_removed_client id m) m removed-started
          h)

  module _ (info : StreamInfo) where
    sink-started : IsStarted (sink_update_stream_info lib state again id info m)
    unfolding sink_update_stream_info
    sink-started = both IsStarted (not (text_eq m.peer_aitt_id id)) m _ h (
        both IsStarted (not (text_eq info.peer_id m.stream.id)) m _ h
          (both IsStarted (is_empty m.stream.peer_id) _ (updated lib state again info m) h h))

    source-started : IsStarted (source_update_stream_info lib state again id info m)
    unfolding source_update_stream_info source_add_stream
    source-started =
        both IsStarted (is_empty m.peer_aitt_id) (source_add_stream lib state id info m) _ h (
          both IsStarted (text_eq m.peer_aitt_id id && not (text_eq info.peer_id m.stream.id))
            (updated lib state again info m) m h h)

  info-started : (msg : Text) → IsStarted (handle_stream_info lib state again flex id msg m)
  unfolding handle_stream_info
  info-started msg =
      let info = read_stream_info flex msg in
      both IsStarted (not (is_valid_stream_info flex msg)) m _ h (
        both IsStarted m.is_source (source_update_stream_info lib state again id info m)
          (sink_update_stream_info lib state again id info m) (source-started info)
          (sink-started info))

  pub msg-started : (msg : Text) → IsStarted (handle_msg lib state again flex id msg m)
  unfolding handle_msg
  msg-started msg =
      both IsStarted (flex.is_string msg) (handle_stream_state lib state again flex id msg m) _
        (state-started msg)
        (both IsStarted (flex.is_vector msg) (handle_stream_info lib state again flex id msg m) m
          (info-started msg) h)

pub told-started :
    (set : Bool) (notice : Notice) (m : Manager) → IsStarted m → IsStarted (tell set notice m)
told-started set notice m h = both IsStarted set (record m { notices = notice ∷ m.notices }) m h h

pub start-kept :
    (told : Result (Unit {0})) (m : Manager) → IsStarted m → IsStarted (Manager.start told m).0
unfolding Manager.start
start-kept (ok u) m h =
    both (λ (r : Manager × Result (Unit {0})). IsStarted r.0) m.callbacks.stream_start_cb
      (record m { is_started = true }, ok tt) (record m { is_started = true }, ok tt) refl refl
start-kept (err e) m h =
    both (λ (r : Manager × Result (Unit {0})). IsStarted r.0) m.callbacks.stream_start_cb (m, err e)
      (record m { is_started = true }, ok tt) h refl

module _ (lib : Webrtc) where
  state-changed-started :
      (state : StreamState) (m : Manager)
      → IsStarted m
      → IsStarted (on_stream_state_changed lib state m)
  unfolding on_stream_state_changed
  state-changed-started state m h =
      let m' = tell m.callbacks.stream_state_cb (stream_state (stream_to_str state)) m in
      let t = told-started m.callbacks.stream_state_cb (stream_state (stream_to_str state)) m h in
      both IsStarted (is_negotiating state)
        (if m.is_source then m' else with_stream (Stream.create_offer_async lib m'.stream).0 m') m'
        (both IsStarted m.is_source m' (with_stream (Stream.create_offer_async lib m'.stream).0 m')
          t t)
        t

  frame-started :
      (has_buffer : Bool) (m : Manager)
      → IsStarted m
      → IsStarted (on_encoded_frame lib has_buffer m)
  unfolding on_encoded_frame
  frame-started false m h = h
  frame-started true m h =
      let m' = record m { frame_received = suc m.frame_received } in
      both IsStarted (m'.frame_received % 100 == 0)
        (with_stream (Stream.print_stats lib m'.stream) m') m' h h

  pub event-started :
      (has_buffer : Bool) (event : Event) (m : Manager)
      → IsStarted m
      → IsStarted (on_event lib has_buffer event m)
  unfolding on_event on_signaling_state_notify on_description_created
  event-started has_buffer (state_changed state) m h = state-changed-started state m h
  event-started has_buffer (signaling_state state) m h =
      both IsStarted (is_remote_offer state)
        (with_stream (Stream.create_answer_async lib m.stream).0 m) m h h
  event-started has_buffer (ice_candidate c) m h =
      told-started m.callbacks.ice_candidate_added_cb candidate_added m h
  event-started has_buffer (ice_gathering state) m h = h
  event-started has_buffer (ice_connection state) m h = h
  event-started has_buffer (encoded_frame packet) m h = frame-started has_buffer m h
  event-started has_buffer (track_added id) m h = h
  event-started has_buffer (source_buffer state) m h =
      told-started m.callbacks.stream_state_cb (stream_state (source_buffer_state_to_str state)) m h
  event-started has_buffer (offer_created sdp) m h = h
  event-started has_buffer (answer_created sdp) m h = h
