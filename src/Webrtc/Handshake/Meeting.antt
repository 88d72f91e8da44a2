-- ===== src/Webrtc/Handshake/Meeting.antt =====
-- modules/webrtc: a source and a sink that hear of each other, and what they hear afterwards.
use aitt.Base.{
  ◌≡◌, ◌≢◌, ◌∙◌, refl, sym, ap, true, false, [], ◌++◌, Option, Text, codes, text_eq, text_eq_iff,
  is_empty, is_empty-false, arith, not, ◌&&◌,
}
use aitt.Flex.{Flexbuffers, IsFlexbuffers}
use aitt.Webrtc.Library.{Webrtc}
use aitt.Webrtc.States.{NativeState}
use aitt.Webrtc.Stream
use aitt.Webrtc.Stream.{Stream}
use aitt.Webrtc.Stream.Ids.{ids, ids-add_peer_information}
use aitt.Webrtc.Manager.{Manager, handle_removed_client, with_stream}
use aitt.Webrtc.Stream.Peer.{add_peer_information}
use aitt.Webrtc.Manager.Ends.{
  handle_msg, handle_stream_state, handle_start_stream, source_update_stream_info,
  sink_update_stream_info, get_discovery_message, source_add_stream,
}
use aitt.Webrtc.Handshake.{info_of, told, if-same}

module _ (lib : Webrtc) (flex : Flexbuffers) (law : IsFlexbuffers flex)
    (state again : Option NativeState) (id : Text) (k m : Manager) where
  met :
      m.is_source ≡ true
      → m.peer_aitt_id ≡ []
      → handle_msg lib state again flex id (get_discovery_message flex k) m
        ≡ source_add_stream lib state id (info_of k) m
  unfolding source_update_stream_info
  met src e = told lib flex law state again id k m ∙ rw (src, e) refl

  met-ids :
      m.is_source ≡ true
      → m.peer_aitt_id ≡ []
      → ids (handle_msg lib state again flex id (get_discovery_message flex k) m).stream
        ≡ (m.thread_id ++ m.address, k.stream.id)
  unfolding source_add_stream Stream.start
  met-ids src e =
      ap (λ x. ids x.stream) (met src e)
      ∙ ids-add_peer_information lib state k.stream.local_description k.stream.ice_candidates _

  met-peer :
      m.is_source ≡ true
      → m.peer_aitt_id ≡ []
      → (handle_msg lib state again flex id (get_discovery_message flex k) m).peer_aitt_id ≡ id
  unfolding source_add_stream
  met-peer src e = ap (λ x. x.peer_aitt_id) (met src e)

  answered :
      m.is_source ≡ false
      → m.peer_aitt_id ≡ id
      → m.stream.peer_id ≡ []
      → k.stream.peer_id ≡ m.stream.id
      → handle_msg lib state again flex id (get_discovery_message flex k) m
        ≡ with_stream
            (add_peer_information lib state k.stream.local_description k.stream.ice_candidates
              (record m.stream { peer_id = k.stream.id })).0
            m
  unfolding sink_update_stream_info
  answered sink e new own =
      let same : text_eq m.peer_aitt_id id ≡ true = (text_eq_iff m.peer_aitt_id id).1 e in
      let mine : text_eq k.stream.peer_id m.stream.id ≡ true =
        (text_eq_iff k.stream.peer_id m.stream.id).1 own in
      told lib flex law state again id k m ∙ rw (sink, same, mine, new) refl

  answered-ids :
      m.is_source ≡ false
      → m.peer_aitt_id ≡ id
      → m.stream.peer_id ≡ []
      → k.stream.peer_id ≡ m.stream.id
      → ids (handle_msg lib state again flex id (get_discovery_message flex k) m).stream
        ≡ (m.stream.id, k.stream.id)
  answered-ids sink e new own =
      ap (λ x. ids x.stream) (answered sink e new own)
      ∙ ids-add_peer_information lib state k.stream.local_description k.stream.ice_candidates
          (record m.stream { peer_id = k.stream.id })

  -- A source that has a peer ignores every message that names the source's own stream as its peer:
  -- what a sink has to tell after it has learned the source's id does not reach the stream.
  pub handle_msg_own_id :
      m.is_source ≡ true
      → m.peer_aitt_id ≢ []
      → k.stream.peer_id ≡ m.stream.id
      → handle_msg lib state again flex id (get_discovery_message flex k) m ≡ m
  unfolding source_update_stream_info
  handle_msg_own_id src full own =
      let mine : text_eq k.stream.peer_id m.stream.id ≡ true =
        (text_eq_iff k.stream.peer_id m.stream.id).1 own in
      let skip : (text_eq m.peer_aitt_id id && not (text_eq k.stream.peer_id m.stream.id)) ≡ false =
        ground arith in
      told lib flex law state again id k m ∙ rw (src, is_empty-false m.peer_aitt_id full, skip) refl

-- A source without a peer and a sink that was started by it and has no id of it yet: when the source
-- has read the message of the sink, and then the sink the message of the source, each end has the
-- other one's id as that of its peer, and the source has the sink's client as its only one. The
-- states of the library in between do not matter.
pub meeting-ids :
    (lib : Webrtc) (flex : Flexbuffers) (state again state' again' : Option NativeState)
    (sink_client source_client : Text) (sink source : Manager)
    → IsFlexbuffers flex
    → source.is_source ≡ true
    → source.peer_aitt_id ≡ []
    → sink.is_source ≡ false
    → sink.peer_aitt_id ≡ source_client
    → sink.stream.peer_id ≡ []
    → let met =
        handle_msg lib state again flex sink_client (get_discovery_message flex sink) source in
      let answered =
        handle_msg lib state' again' flex source_client (get_discovery_message flex met) sink in
      let own = source.thread_id ++ source.address in
      (ids met.stream ≡ (own, sink.stream.id))
      × ((ids answered.stream ≡ (sink.stream.id, own)) × (met.peer_aitt_id ≡ sink_client))
meeting-ids lib flex state again state' again' sink_client source_client sink source law src e k f
      new =
    let met =
      handle_msg lib state again flex sink_client (get_discovery_message flex sink) source in
    let i = met-ids lib flex law state again sink_client sink source src e in
    (
      i,
      (
        answered-ids lib flex law state' again' source_client met sink k f new (ap (λ x. x.1) i)
            ∙ ap (λ x. (sink.stream.id, x.0)) i,
        met-peer lib flex law state again sink_client sink source src e,
      ),
    )

module _ (lib : Webrtc) (flex : Flexbuffers) (state again : Option NativeState) (id : Text)
    (m : Manager) (law : IsFlexbuffers flex) where
  stopped :
      m.is_source ≡ false
      → text_eq m.peer_aitt_id id ≡ true
      → handle_msg lib state again flex id (flex.build_string (codes "STOP")) m
        ≡ with_stream (Stream.destroy m.stream) m
  unfolding handle_msg handle_stream_state handle_removed_client text_eq
  stopped sink same =
      rw (law.string-IsString (codes "STOP"), law.string-string (codes "STOP"), same) refl

  started_late :
      is_empty m.peer_aitt_id ≡ false
      → handle_msg lib state again flex id (flex.build_string (codes "START")) m ≡ m
  unfolding handle_msg handle_stream_state handle_start_stream handle_removed_client text_eq
  started_late full =
      rw (law.string-IsString (codes "START"), law.string-string (codes "START"), full)
        (if-same (not m.is_source) _ _ m refl refl)

-- A sink whose source has said STOP keeps its peer: when the same source, or any other client, says
-- START again, the sink does nothing.
pub restart-ignored :
    (lib : Webrtc) (flex : Flexbuffers) (state again : Option NativeState) (id id' : Text)
    (m : Manager)
    → IsFlexbuffers flex
    → m.is_source ≡ false
    → m.peer_aitt_id ≡ id
    → id ≢ []
    → let stopped = handle_msg lib state again flex id (flex.build_string (codes "STOP")) m in
      (stopped.stream ≡ Stream.destroy m.stream)
      × (handle_msg lib state again flex id' (flex.build_string (codes "START")) stopped ≡ stopped)
restart-ignored lib flex state again id id' m law sink e n =
    let same : text_eq m.peer_aitt_id id ≡ true = (text_eq_iff m.peer_aitt_id id).1 e in
    let full : is_empty m.peer_aitt_id ≡ false =
      is_empty-false m.peer_aitt_id (λ z. n (sym e ∙ z)) in
    let left = stopped lib flex state again id m law sink same in
    (
      ap (λ x. x.stream) left,
      rw left (
          started_late lib flex state again id' (with_stream (Stream.destroy m.stream) m) law full),
    )
