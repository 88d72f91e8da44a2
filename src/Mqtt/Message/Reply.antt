-- ===== src/Mqtt/Message/Reply.antt =====
-- src/MosquittoMQ.cc: a reply that `SendReply` publishes, as `InvokeCallback` reads it.
use aitt.Base.{
  ℕ, ◌<◌, ◌%◌, ◌∙◌, ap, length, take, ◌≡◌, refl, Bool, true, false, [], ◌∷◌, some, Text, c_str,
  IsInt, stoi, stoi-to_string, c_str-to_string, text_eq, subst, arith,
}
use aitt.Types.{ok, mqtt}
use aitt.Msg.{AittMsg, new_msg}
use aitt.Mqtt.Message.{
  Publication, uint16_bytes, send_reply, reply_publication, read_message, read_user, bool_text,
  reply_is_end_sequence_key,
}

-- What the receiver of a reply gets to see of it.
abbrev pub as_received : AittMsg → AittMsg
as_received m = record {
  topic = c_str m.reply_topic;
  correlation = m.correlation;
  reply_topic = [];
  sequence = m.sequence;
  end_sequence = m.end_sequence;
  id = 0;
  protocol = mqtt;
}

read_end :
    (b : Bool) (m : AittMsg)
    → read_user ((reply_is_end_sequence_key, bool_text b) ∷ []) m
      ≡ some (record m { end_sequence = b })
unfolding read_user text_eq stoi
read_end true m = refl
read_end false m = refl

take_all : (t : Text) → take (length t) t ≡ t
take_all [] = refl
take_all (x ∷ t) = ap (λ u. x ∷ u) (take_all t)

uint16_bytes_small : (t : Text) → length t < 65536 → uint16_bytes t ≡ t
uint16_bytes_small t h =
    let e : length t % 65536 ≡ length t = omega arith in ap (λ n. take n t) e ∙ take_all t

-- A correlation of fewer than 65536 bytes is sent and read as it is.
correlation_kept : (t : Text) → length t < 65536 → uint16_bytes (uint16_bytes t) ≡ t
correlation_kept t h = ap uint16_bytes (uint16_bytes_small t h) ∙ uint16_bytes_small t h

read_reply :
    (m : AittMsg) (payload : Text) (qos : ℕ) (retain : Bool)
    → IsInt m.sequence
    → length m.correlation < 65536
    → let p = reply_publication m payload qos retain in
      read_message p.topic p.props ≡ some (as_received m)
unfolding read_message text_eq new_msg
read_reply m payload qos retain b short =
    rw (c_str-to_string m.sequence, stoi-to_string m.sequence b, read_user)
      (rw (read_end, correlation_kept m.correlation short) refl)

send_reply_sent :
    (a b c d : Bool) (m : AittMsg) (payload : Text) (qos : ℕ) (retain : Bool) {p : Publication}
    → send_reply a b c d (some m) payload qos retain ≡ ok (some p)
    → reply_publication m payload qos retain ≡ p
unfolding send_reply
send_reply_sent a b c d m payload qos retain e = ground arith

-- A reply that `SendReply` published goes to the response topic of the request, up to a NUL byte,
-- and is read with the correlation, the number and the end mark that it was sent with, and no
-- response topic. The number is an `int`, and the correlation has fewer than 65536 bytes.
pub send_reply-read_message :
    (a b c d : Bool) (m : AittMsg) (payload : Text) (qos : ℕ) (retain : Bool) {p : Publication}
    → IsInt m.sequence
    → length m.correlation < 65536
    → send_reply a b c d (some m) payload qos retain ≡ ok (some p)
    → read_message p.topic p.props ≡ some (as_received m)
send_reply-read_message a b c d m payload qos retain i short e =
    subst (λ p. read_message p.topic p.props ≡ some (as_received m))
      (send_reply_sent a b c d m payload qos retain e) (read_reply m payload qos retain i short)
