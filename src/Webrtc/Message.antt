-- ===== src/Webrtc/Message.antt =====
-- modules/webrtc/WebRtcMessage.cc and the messages of the stream managers: what one end tells the
-- other of its stream.
pub mod Laws
use aitt.Base.{Bool, true, false, List, [], ◌∷◌, Option, none, some, ◌&&◌, Text, codes}
use aitt.Flex.{Item, text, Field, str, uint, boolean, blob, vector, Flexbuffers}

-- `IsString` and `IsVector` of what stands at a key.
abbrev is_string_field : Option Field → Bool
is_string_field (some (str t)) = true
is_string_field _ = false

abbrev is_vector_field : Option Field → Bool
is_vector_field (some (vector items)) = true
is_vector_field _ = false

unfoldable pub is_valid_stream : (Text → Option Field) → Bool
is_valid_stream info =
    is_string_field (info (codes "id"))
    && is_string_field (info (codes "peer_id"))
    && is_string_field (info (codes "sdp"))
    && is_vector_field (info (codes "ice_candidates"))

unfoldable pub is_valid_stream_info : Flexbuffers → Text → Bool
unfolding is_valid_stream
is_valid_stream_info flex message = flex.is_map message && is_valid_stream (flex.read_field message)

-- What is read of a message, and what it is made of.
pub record StreamInfo : Type 0 where
  pub id : Text
  pub peer_id : Text
  pub sdp : Text
  pub ice_candidates : List Text

unfoldable pub texts_of : Flexbuffers → List Item → List Text
texts_of flex [] = []
texts_of flex (item ∷ items) = flex.as_text item ∷ texts_of flex items

unfoldable pub items_of : List Text → List Item
items_of [] = []
items_of (t ∷ ts) = text t ∷ items_of ts

unfoldable pub read_stream_info : Flexbuffers → Text → StreamInfo
unfolding texts_of
read_stream_info flex message =
    let at = flex.read_field message in
    record {
      id = flex.as_string (at (codes "id"));
      peer_id = flex.as_string (at (codes "peer_id"));
      sdp = flex.as_string (at (codes "sdp"));
      ice_candidates = texts_of flex (flex.as_vector (at (codes "ice_candidates")));
    }

unfoldable pub info_fields : StreamInfo → List (Text × Field)
unfolding items_of
info_fields info =
    (codes "id", str info.id)
    ∷ (codes "peer_id", str info.peer_id)
    ∷ (codes "sdp", str info.sdp)
    ∷ (codes "ice_candidates", vector (items_of info.ice_candidates))
    ∷ []

unfoldable pub discovery_message : Flexbuffers → StreamInfo → Text
unfolding info_fields
discovery_message flex info = flex.build_map (info_fields info)
