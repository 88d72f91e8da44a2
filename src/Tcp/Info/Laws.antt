-- ===== src/Tcp/Info/Laws.antt =====
-- modules/tcp/Module.cc: what `UnpackMsgInfo` makes of the buffer of `PackMsgInfo`.
use aitt.Base.{
  zero, suc, ◌≡◌, refl, Bool, true, false, not, [], ◌∷◌, Option, none, some, if◌then◌else◌, Text,
  codes, is_empty, text_eq, c_str, ℤ, pos, negsuc, IsInt, lookup, text_key, arith,
}
use aitt.Msg.{
  AittMsg, is_zero_int, new_msg, set_topic, set_response_topic, set_correlation, set_sequence,
  set_end_sequence,
}
use aitt.Types.{mqtt}
use aitt.Flex.{Field, str, uint, boolean, Flexbuffers, IsFlexbuffers, unique_keys}
use aitt.Tcp.Info.{
  pack_fields, pack_msg_info, unpack_fields, unpack_msg_info, to_uint64, from_uint64, if_string,
  if_uint, if_bool,
}

from_uint64-to_uint64 : (z : ℤ) → IsInt z → from_uint64 (to_uint64 z) ≡ z
from_uint64-to_uint64 (pos n) h = ground arith
from_uint64-to_uint64 (negsuc n) h = ground arith

pack_fields_unique : (m : AittMsg) (is_reply : Bool) → unique_keys (pack_fields m is_reply) ≡ true
unfolding pack_fields unique_keys text_eq
pack_fields_unique m true = ground arith
pack_fields_unique m false = ground arith

-- The entry at each key.
abbrev optional_entry : Bool → Field → Option Field
optional_entry present f = if present then some f else none

module _ (m : AittMsg) (is_reply : Bool) where
  at_topic : lookup (codes "topic") (pack_fields m is_reply) ≡ (
      let t = if is_reply then m.reply_topic else m.topic in
      optional_entry (not (is_empty t)) (str (c_str t)))
  unfolding pack_fields lookup text_eq
  at_topic = ground arith

  at_reply_topic : lookup (codes "reply_topic") (pack_fields m is_reply) ≡ (
      if is_reply
      then none
      else optional_entry (not (is_empty m.reply_topic)) (str (c_str m.reply_topic)))
  unfolding pack_fields lookup text_eq
  at_reply_topic = ground arith

  at_correlation :
      lookup (codes "correlation") (pack_fields m is_reply)
      ≡ optional_entry (not (is_empty m.correlation)) (str (c_str m.correlation))
  unfolding pack_fields lookup text_eq
  at_correlation = ground arith

  at_sequence :
      lookup (codes "sequence") (pack_fields m is_reply)
      ≡ optional_entry (not (is_zero_int m.sequence)) (uint (to_uint64 m.sequence))
  unfolding pack_fields lookup text_eq
  at_sequence = ground arith

  at_end_sequence :
      lookup (codes "end_sequence") (pack_fields m is_reply)
      ≡ optional_entry m.end_sequence (boolean m.end_sequence)
  unfolding pack_fields lookup text_eq
  at_end_sequence = ground arith

string_kept : (t : Text) → (if not (is_empty t) then c_str t else []) ≡ c_str t
unfolding c_str
string_kept [] = refl
string_kept (x ∷ t) = refl

-- What the receiver gets to see: the end mark is always set.
abbrev pub as_received : AittMsg → Bool → AittMsg
as_received m is_reply = record {
  topic = c_str (if is_reply then m.reply_topic else m.topic);
  correlation = c_str m.correlation;
  reply_topic = if is_reply then [] else c_str m.reply_topic;
  sequence = m.sequence;
  end_sequence = true;
  id = 0;
  protocol = mqtt;
}

take_topic :
    (t : Text) (m : AittMsg)
    → m.topic ≡ []
    → if_string (optional_entry (not (is_empty t)) (str (c_str t))) set_topic m
      ≡ record m { topic = c_str t }
unfolding set_topic c_str
take_topic [] m e = ground arith
take_topic (x ∷ t) m e = refl

take_reply_topic :
    (t : Text) (m : AittMsg)
    → m.reply_topic ≡ []
    → if_string (optional_entry (not (is_empty t)) (str (c_str t))) set_response_topic m
      ≡ record m { reply_topic = c_str t }
unfolding set_response_topic c_str
take_reply_topic [] m e = ground arith
take_reply_topic (x ∷ t) m e = refl

take_correlation :
    (t : Text) (m : AittMsg)
    → m.correlation ≡ []
    → if_string (optional_entry (not (is_empty t)) (str (c_str t))) set_correlation m
      ≡ record m { correlation = c_str t }
unfolding set_correlation c_str
take_correlation [] m e = ground arith
take_correlation (x ∷ t) m e = refl

take_sequence :
    (z : ℤ) (m : AittMsg)
    → IsInt z
    → m.sequence ≡ pos 0
    → if_uint
        (optional_entry (not (is_zero_int z)) (uint (to_uint64 z)))
        (λ n. set_sequence (from_uint64 n))
        m
      ≡ record m { sequence = z }
unfolding set_sequence
take_sequence (pos zero) m b e = ground arith
take_sequence (pos (suc n)) m b e = ground (arith, from_uint64-to_uint64 (pos (suc n)) b)
take_sequence (negsuc n) m b e = ground (arith, from_uint64-to_uint64 (negsuc n) b)

take_end_sequence :
    (end : Bool) (m : AittMsg)
    → m.end_sequence ≡ true
    → if_bool (optional_entry end (boolean end)) set_end_sequence m ≡ m
unfolding set_end_sequence
take_end_sequence true m e = ground arith
take_end_sequence false m e = refl

unpack_read :
    (read : Text → Option Field) (m : AittMsg) (is_reply : Bool)
    → IsInt m.sequence
    → ((k : Text) → read k ≡ lookup k (pack_fields m is_reply))
    → unpack_fields read new_msg ≡ as_received m is_reply
unfolding unpack_fields new_msg
unpack_read read m true b r =
    let m1 : AittMsg = record new_msg { topic = c_str m.reply_topic } in
    let m2 : AittMsg = record m1 { correlation = c_str m.correlation } in
    let m3 : AittMsg = record m2 { sequence = m.sequence } in
    rw
      (
        r (codes "topic"),
        r (codes "reply_topic"),
        r (codes "correlation"),
        r (codes "sequence"),
        r (codes "end_sequence"),
        at_topic m true,
        at_reply_topic m true,
        at_correlation m true,
        at_sequence m true,
        at_end_sequence m true,
      )
      (rw (take_topic m.reply_topic new_msg refl) (
        rw (take_correlation m.correlation m1 refl)
          (rw (take_sequence m.sequence m2 b refl) (take_end_sequence m.end_sequence m3 refl))))
unpack_read read m false b r =
    let m1 : AittMsg = record new_msg { topic = c_str m.topic } in
    let m2 : AittMsg = record m1 { reply_topic = c_str m.reply_topic } in
    let m3 : AittMsg = record m2 { correlation = c_str m.correlation } in
    let m4 : AittMsg = record m3 { sequence = m.sequence } in
    rw
      (
        r (codes "topic"),
        r (codes "reply_topic"),
        r (codes "correlation"),
        r (codes "sequence"),
        r (codes "end_sequence"),
        at_topic m false,
        at_reply_topic m false,
        at_correlation m false,
        at_sequence m false,
        at_end_sequence m false,
      )
      (rw (take_topic m.topic new_msg refl) (
        rw (take_reply_topic m.reply_topic m1 refl) (
          rw (take_correlation m.correlation m2 refl)
            (rw (take_sequence m.sequence m3 b refl) (take_end_sequence m.end_sequence m4 refl)))))

-- The receiver reads the topic that the message is for (a reply's is the response topic), the
-- response topic if it is no reply, and the correlation as they were sent, up to a NUL byte, and
-- the number, which is an `int`. But it reads the end mark as set, whether the sender set it or
-- not: an unset mark is not packed, and a new `AittMsg` has it set.
pub unpack-pack_msg_info :
    (flex : Flexbuffers) (m : AittMsg) (is_reply : Bool)
    → IsFlexbuffers flex
    → IsInt m.sequence
    → unpack_msg_info flex new_msg (pack_msg_info flex m is_reply) ≡ as_received m is_reply
unfolding unpack_msg_info pack_msg_info
unpack-pack_msg_info flex m is_reply f b =
    unpack_read _ m is_reply b
      (λ k. f.field-map (pack_fields m is_reply) k (pack_fields_unique m is_reply))
