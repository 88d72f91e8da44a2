-- ===== src/Webrtc/Handshake.antt =====
-- modules/webrtc: how the two ends of a stream find each other, by the messages of the discovery.
pub mod Meeting
use aitt.Base.{
  ◌≡◌, ◌≢◌, ◌∙◌, refl, sym, ap, Bool, true, false, List, [], ◌∷◌, Option, none, some, Text, codes,
  text_eq, text_eq_iff, text_eq_refl, is_empty, is_empty-false, arith, if◌then◌else◌, not, ◌&&◌,
  Bool-cases, inl, inr,
}
use aitt.Flex.{Flexbuffers, IsFlexbuffers}
use aitt.Webrtc.Library.{Webrtc}
use aitt.Webrtc.States.{NativeState, state_negotiating}
use aitt.Webrtc.Message.{
  StreamInfo, is_valid_stream_info, read_stream_info, discovery_message, info_fields,
}
use aitt.Webrtc.Message.Laws.{read-discovery_message}
use aitt.Webrtc.Stream.{Stream, destroy}
use aitt.Webrtc.Stream
use aitt.Webrtc.Stream.Peer.{add_peer_information, is_negotiating_state}
use aitt.Webrtc.Manager.{Manager, handle_removed_client, with_stream}
use aitt.Webrtc.Manager.Ends.{
  handle_msg, handle_stream_info, handle_stream_state, handle_start_stream, sink_add_stream,
  source_update_stream_info, sink_update_stream_info, get_discovery_message, source_add_stream,
}

text_eq-ne : (a b : Text) → a ≢ b → text_eq a b ≡ false
text_eq-ne a b n = elim (Bool-cases (text_eq a b)) [
  | inl e ↦ absurd (n ((text_eq_iff a b).0 e))
  | inr e ↦ e
]

-- Either way of a test gives the same.
pub if-same {ℓ} : {A : Type ℓ} (b : Bool) (x y z : A) → x ≡ z → y ≡ z → (if b then x else y) ≡ z
if-same true x y z h k = h
if-same false x y z h k = k

module _ (lib : Webrtc) (flex : Flexbuffers) (state again : Option NativeState) (id : Text)
    (m : Manager) (full : m.peer_aitt_id ≢ []) (n : m.peer_aitt_id ≢ id) where
  removed-foreign : handle_removed_client id m ≡ m
  unfolding handle_removed_client
  removed-foreign = rw (text_eq-ne m.peer_aitt_id id n) refl

  start-foreign : handle_start_stream lib id m ≡ m
  unfolding handle_start_stream
  start-foreign = rw (is_empty-false m.peer_aitt_id full) refl

  state-foreign : (message : Text) → handle_stream_state lib state again flex id message m ≡ m
  unfolding handle_stream_state
  state-foreign message =
      let said = flex.root_string message in
      if-same (text_eq said (codes "START") && not m.is_source) _ _ m start-foreign
        (if-same (text_eq said (codes "STOP")) _ _ m removed-foreign refl)

  sink-foreign : (info : StreamInfo) → sink_update_stream_info lib state again id info m ≡ m
  unfolding sink_update_stream_info
  sink-foreign info = rw (text_eq-ne m.peer_aitt_id id n) refl

  source-foreign : (info : StreamInfo) → source_update_stream_info lib state again id info m ≡ m
  unfolding source_update_stream_info
  source-foreign info = rw (is_empty-false m.peer_aitt_id full, text_eq-ne m.peer_aitt_id id n) refl

  -- An end that has a peer takes nothing from another client: no message of one, and not its
  -- leaving, changes anything of the end or of its stream.
  pub handle_msg_foreign :
      (message : Text)
      → (handle_msg lib state again flex id message m ≡ m) × (handle_removed_client id m ≡ m)
  unfolding handle_msg handle_stream_info
  handle_msg_foreign message =
      let info = read_stream_info flex message in
      (
        if-same (flex.is_string message) _ _ m (state-foreign message) (
            if-same (flex.is_vector message) _ _ m
              (if-same (not (is_valid_stream_info flex message)) _ _ m refl
                (if-same m.is_source _ _ m (source-foreign info) (sink-foreign info)))
              refl),
        removed-foreign,
      )

-- What the message of an end says.
abbrev pub info_of : Manager → StreamInfo
info_of k = record {
  id = k.stream.id;
  peer_id = k.stream.peer_id;
  sdp = k.stream.local_description;
  ice_candidates = k.stream.ice_candidates;
}

module _ (lib : Webrtc) (flex : Flexbuffers) (law : IsFlexbuffers flex)
    (state again : Option NativeState) (id : Text) (k m : Manager) where
  pub told : handle_msg lib state again flex id (get_discovery_message flex k) m ≡ (
      if m.is_source
      then source_update_stream_info lib state again id (info_of k) m
      else sink_update_stream_info lib state again id (info_of k) m)
  unfolding handle_msg handle_stream_info get_discovery_message discovery_message
  told =
      let r = read-discovery_message flex law (info_of k) in
      rw
        (
          law.map-not_string (info_fields (info_of k)),
          law.map-IsVector (info_fields (info_of k)),
          r.0,
          r.1,
        )
        refl
