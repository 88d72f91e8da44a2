-- ===== src/Tcp/Info.antt =====
-- modules/tcp/Module.cc: `PackMsgInfo` and `UnpackMsgInfo`, what is told of a message besides its
-- payload.
pub mod Laws
use aitt.Base.{
  ℕ, suc, ◌+◌, ◌-◌, ◌%◌, Bool, true, false, not, List, [], ◌∷◌, ◌++◌, Option, none, some,
  if◌then◌else◌, ltb, Text, codes, is_empty, c_str, ℤ, pos, negsuc, int32_max,
}
use aitt.Msg.{
  AittMsg, is_zero_int, set_topic, set_response_topic, set_correlation, set_sequence,
  set_end_sequence,
}
use aitt.Flex.{Field, str, uint, boolean, blob, vector, Flexbuffers}

-- An `int` as a `uint64_t`, and a `uint64_t` as an `int`.
abbrev pub to_uint64 : ℤ → ℕ
to_uint64 (pos n) = n
to_uint64 (negsuc n) = 18446744073709551615 - n

abbrev pub from_uint64 : ℕ → ℤ
from_uint64 n =
    let low = n % 4294967296 in if ltb int32_max low then negsuc (4294967295 - low) else pos low

-- `if (present) fbb.…(key, …)`
abbrev pub entry : Bool → Text → Field → List (Text × Field) → List (Text × Field)
entry present k f fs = if present then (k, f) ∷ fs else fs

-- The entries that do not depend on `is_reply`.
unfoldable pub pack_tail : AittMsg → List (Text × Field)
pack_tail msg =
    entry (not (is_empty msg.correlation)) (codes "correlation") (str (c_str msg.correlation)) (
      entry (not (is_zero_int msg.sequence)) (codes "sequence") (uint (to_uint64 msg.sequence))
        (entry msg.end_sequence (codes "end_sequence") (boolean msg.end_sequence) []))

unfoldable pub pack_fields : AittMsg → Bool → List (Text × Field)
unfolding pack_tail
pack_fields msg true =
    entry (not (is_empty msg.reply_topic)) (codes "topic") (str (c_str msg.reply_topic))
      (pack_tail msg)
pack_fields msg false = entry (not (is_empty msg.topic)) (codes "topic") (str (c_str msg.topic)) (
    entry (not (is_empty msg.reply_topic)) (codes "reply_topic") (str (c_str msg.reply_topic))
      (pack_tail msg))

unfoldable pub pack_msg_info : Flexbuffers → AittMsg → Bool → Text
pack_msg_info flex msg is_reply = flex.build_map (pack_fields msg is_reply)

-- `if (map[key].IsString()) …`, and so on.
abbrev pub if_string : Option Field → (Text → AittMsg → AittMsg) → AittMsg → AittMsg
if_string (some (str t)) f m = f t m
if_string _ f m = m

abbrev pub if_uint : Option Field → (ℕ → AittMsg → AittMsg) → AittMsg → AittMsg
if_uint (some (uint n)) f m = f n m
if_uint _ f m = m

abbrev pub if_bool : Option Field → (Bool → AittMsg → AittMsg) → AittMsg → AittMsg
if_bool (some (boolean b)) f m = f b m
if_bool _ f m = m

-- `read k` is `map[k]`.
unfoldable pub unpack_fields : (Text → Option Field) → AittMsg → AittMsg
unfolding set_topic set_response_topic set_correlation set_sequence set_end_sequence
unpack_fields read m0 =
    let m1 = if_string (read (codes "topic")) set_topic m0 in
    let m2 = if_string (read (codes "reply_topic")) set_response_topic m1 in
    let m3 = if_string (read (codes "correlation")) set_correlation m2 in
    let m4 = if_uint (read (codes "sequence")) (λ n. set_sequence (from_uint64 n)) m3 in
    if_bool (read (codes "end_sequence")) set_end_sequence m4

unfoldable pub unpack_msg_info : Flexbuffers → AittMsg → Text → AittMsg
unfolding unpack_fields
unpack_msg_info flex m buffer = unpack_fields (flex.read_field buffer) m
