-- ===== src/Mqtt/Message.antt =====
-- src/MosquittoMQ.cc: `Publish`, `PublishWithReply` and `SendReply`, and how `InvokeCallback` reads
-- a message that arrives. libmosquitto is not part of the repository: each call of it answers with
-- `true` for MOSQ_ERR_SUCCESS, and its answers are arguments.
pub mod Reply
use aitt.Base.{
  ℕ, Bool, true, false, List, [], ◌∷◌, Option, none, some, Text, codes, text_eq, c_str,
  if◌then◌else◌, ℤ, pos, negsuc, to_string, stoi, ◌==◌, ◌%◌, length, take,
}
use aitt.Types.{Result, ok, err, mqtt_err}
use aitt.Msg.{
  AittMsg, new_msg, set_topic, set_response_topic, set_correlation, set_sequence, set_end_sequence,
}

-- The MQTT properties: MQTT_PROP_RESPONSE_TOPIC, MQTT_PROP_CORRELATION_DATA and the pairs of
-- MQTT_PROP_USER_PROPERTY.
pub record Props : Type 0 where
  pub response_topic : Option Text
  pub correlation : Option Text
  pub user : List (Text × Text)

-- `mosquitto_property_add_binary` takes a number of bytes that is a `uint16_t`.
abbrev pub uint16_bytes : Text → Text
uint16_bytes t = take (length t % 65536) t

-- What is handed to the broker.
pub record Publication : Type 0 where
  pub topic : Text
  pub payload : Text
  pub qos : ℕ
  pub retain : Bool
  pub props : Option Props

abbrev pub reply_sequence_num_key : Text
reply_sequence_num_key = codes "sequenceNum"

abbrev pub reply_is_end_sequence_key : Text
reply_is_end_sequence_key = codes "isEndSequence"

infixl 5 ◌>>=◌ ◌>>◌
abbrev ◌>>=◌ {ℓ κ} : {A : Type ℓ} {B : Type κ} → Result A → (A → Result B) → Result B
ok a >>= f = f a
err e >>= f = err e

abbrev ◌>>◌ {ℓ} : {B : Type ℓ} → Result (Unit {0}) → Result B → Result B
m >> k = m >>= λ _. k

-- `if (ret != MOSQ_ERR_SUCCESS) throw AittException(MQTT_ERR)`
abbrev check : Bool → Result (Unit {0})
check true = ok tt
check false = err mqtt_err

unfoldable pub publish : (sent : Bool) → Text → Text → ℕ → Bool → Result Publication
publish sent topic payload qos retain = do
  check sent
  ok (record { topic = c_str topic; payload = payload; qos = qos; retain = retain; props = none })

unfoldable pub publish_with_reply :
    (added bound sent : Bool) → Text → Text → ℕ → Bool → Text → Text → Result Publication
publish_with_reply added bound sent topic payload qos retain reply_topic correlation = do
  check added
  check bound
  check sent
  ok (record {
    topic = c_str topic;
    payload = payload;
    qos = qos;
    retain = retain;
    props = some (record {
      response_topic = some (c_str reply_topic);
      correlation = some (uint16_bytes correlation);
      user = [];
    });
  })

-- `std::to_string` of a `bool`.
abbrev pub bool_text : Bool → Text
bool_text true = codes "1"
bool_text false = codes "0"

-- The reply as it is published, with its number and its end mark in user properties.
abbrev pub reply_publication : AittMsg → Text → ℕ → Bool → Publication
reply_publication msg payload qos retain = record {
  topic = c_str msg.reply_topic;
  payload = payload;
  qos = qos;
  retain = retain;
  props = some (record {
    response_topic = none;
    correlation = some (uint16_bytes msg.correlation);
    user =
        (reply_sequence_num_key, c_str (to_string msg.sequence))
        ∷ (reply_is_end_sequence_key, bool_text msg.end_sequence)
        ∷ [];
  });
}

-- A null message sends nothing.
unfoldable pub send_reply :
    (bound numbered ended sent : Bool)
    → Option AittMsg
    → Text
    → ℕ
    → Bool
    → Result (Option Publication)
send_reply bound numbered ended sent none payload qos retain = ok none
send_reply bound numbered ended sent (some msg) payload qos retain = do
  check bound
  check numbered
  check ended
  check sent
  ok (some (reply_publication msg payload qos retain))

abbrev is_one : ℤ → Bool
is_one (pos n) = n == 1
is_one (negsuc n) = false

-- The loop over the user properties. `none` is an exception of `std::stoi`.
unfoldable pub read_user : List (Text × Text) → AittMsg → Option AittMsg
unfolding set_sequence set_end_sequence
read_user [] m = some m
read_user ((name, value) ∷ ps) m =
    if text_eq reply_sequence_num_key name
    then elim (stoi value) [ none ↦ none | some n ↦ read_user ps (set_sequence n m) ]
    else if text_eq reply_is_end_sequence_key name
    then elim (stoi value) [ none ↦ none | some n ↦ read_user ps (set_end_sequence (is_one n) m) ]
    else read_user ps m

abbrev or_empty : Option Text → Text
or_empty none = []
or_empty (some t) = t

abbrev with_response_topic : Option Text → AittMsg → AittMsg
unfolding set_response_topic
with_response_topic none m = m
with_response_topic (some t) m = set_response_topic t m

-- The part of `InvokeCallback` before the callback is called. The library gives the correlation with
-- its number of bytes, a `uint16_t`.
unfoldable pub read_message : Text → Option Props → Option AittMsg
unfolding new_msg set_topic set_response_topic set_correlation read_user
read_message topic none = some (set_topic topic new_msg)
read_message topic (some p) = read_user p.user (
    set_correlation (uint16_bytes (or_empty p.correlation))
      (with_response_topic p.response_topic (set_topic topic new_msg)))
