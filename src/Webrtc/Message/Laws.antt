-- ===== src/Webrtc/Message/Laws.antt =====
-- modules/webrtc/WebRtcMessage.cc: a message of a stream is read as it was made.
use aitt.Base.{◌≡◌, refl, true, List, [], ◌∷◌, Text, codes, lookup, text_key, arith, text_eq, some}
use aitt.Flex.{Flexbuffers, IsFlexbuffers, str, vector, unique_keys, has_key}
use aitt.Webrtc.Message.{
  StreamInfo, is_valid_stream, is_valid_stream_info, texts_of, items_of, read_stream_info,
  info_fields, discovery_message,
}

module _ (flex : Flexbuffers) (law : IsFlexbuffers flex) where
  texts_of-items_of : (ts : List Text) → texts_of flex (items_of ts) ≡ ts
  unfolding texts_of items_of
  texts_of-items_of [] = refl
  texts_of-items_of (t ∷ ts) =
      let a = law.text-text t in let ih = texts_of-items_of ts in ground arith

  info_unique : (info : StreamInfo) → unique_keys (info_fields info) ≡ true
  unfolding info_fields unique_keys has_key text_eq
  info_unique info = refl

  module _ (info : StreamInfo) where
    id-read : flex.read_field (discovery_message flex info) (codes "id") ≡ some (str info.id)
    unfolding discovery_message info_fields lookup text_eq
    id-read = law.field-map (info_fields info) (codes "id") (info_unique info)

    peer_id-read :
        flex.read_field (discovery_message flex info) (codes "peer_id") ≡ some (str info.peer_id)
    unfolding discovery_message info_fields lookup text_eq
    peer_id-read = law.field-map (info_fields info) (codes "peer_id") (info_unique info)

    sdp-read : flex.read_field (discovery_message flex info) (codes "sdp") ≡ some (str info.sdp)
    unfolding discovery_message info_fields lookup text_eq
    sdp-read = law.field-map (info_fields info) (codes "sdp") (info_unique info)

    candidates-read :
        flex.read_field (discovery_message flex info) (codes "ice_candidates")
        ≡ some (vector (items_of info.ice_candidates))
    unfolding discovery_message info_fields lookup text_eq
    candidates-read = law.field-map (info_fields info) (codes "ice_candidates") (info_unique info)

    map-read : flex.is_map (discovery_message flex info) ≡ true
    unfolding discovery_message
    map-read = law.map-IsMap (info_fields info)

    -- The message that an end makes of its stream is valid, and is read as the ids, the description
    -- and the candidates that it was made of.
    pub read-discovery_message :
        (is_valid_stream_info flex (discovery_message flex info) ≡ true)
        × (read_stream_info flex (discovery_message flex info) ≡ info)
    unfolding is_valid_stream_info is_valid_stream read_stream_info
    read-discovery_message = (
      rw (map-read, id-read, peer_id-read, sdp-read, candidates-read) refl,
      rw
          (
            id-read,
            peer_id-read,
            sdp-read,
            candidates-read,
            law.string-str info.id,
            law.string-str info.peer_id,
            law.string-str info.sdp,
            law.vector-field (items_of info.ice_candidates),
            texts_of-items_of info.ice_candidates,
          )
          refl,
    )
