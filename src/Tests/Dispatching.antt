-- ===== src/Tests/Dispatching.antt =====
-- The theorems on src/MosquittoMQ.cc at concrete subscribers and messages.
use aitt.Base.{
  ◌≡◌, refl, Bool, true, false, List, [], ◌∷◌, ◌++◌, Option, none, some, if◌then◌else◌, ◌==◌, Text,
  codes, text_eq, pos, c_str, to_string, arith,
}
use aitt.Types.{ok, err, mqtt_err, mqtt}
use aitt.Msg.{AittMsg, new_msg, set_topic}
use aitt.Mqtt.Message.{read_message, Publication, send_reply, reply_publication}
use aitt.Mqtt.Message.Reply.{as_received, send_reply-read_message}
use aitt.Mqtt.Subscribers.{
  SubscribeData, Mq, Action, unsubscribes, subscribes, subscribe, unsubscribe,
}
use aitt.Mqtt.Subscribers.Laws.{unsubscribe-subscribe}
use aitt.Mqtt.Dispatch.{Incoming, finished, past_end, message_cb, compare_topic}
use aitt.Mqtt.Dispatch.Spec.{Distinct, deliveries, remaining, joined, hits}
use aitt.Mqtt.Dispatch.Exact.{message_cb-exact}
use aitt.Mqtt.Dispatch.PastEnd.{message_cb_past_end}

abbrev matches : Text → Text → Option Bool
unfolding text_eq
matches a b = some (text_eq a b)

abbrev one : SubscribeData
one = record { addr = 1; topic = codes "a"; cb = 10; user_data = 20 }

abbrev two : SubscribeData
two = record { addr = 2; topic = codes "b"; cb = 11; user_data = 21 }

abbrev three : SubscribeData
three = record { addr = 3; topic = codes "a"; cb = 12; user_data = 22 }

abbrev hello : Incoming
hello = record { topic = codes "a"; payload = codes "hello"; props = none }

abbrev hello_msg : AittMsg
hello_msg = record {
  topic = codes "a";
  correlation = [];
  reply_topic = [];
  sequence = pos 0;
  end_sequence = true;
  id = 0;
  protocol = mqtt;
}

abbrev mq_of : List SubscribeData → Mq
mq_of ss = record {
  subscribers = ss;
  iterating = false;
  new_subscribers = [];
  iterator = none;
  updated = false;
  delivered = [];
  unsubscribed = [];
}

Distinct-both : Distinct (one ∷ three ∷ [])
Distinct-both = (omega arith, (omega arith, tt), (omega arith, tt, tt))

Distinct-two : Distinct (one ∷ two ∷ [])
Distinct-two = (omega arith, (omega arith, tt), (omega arith, tt, tt))

Distinct-three : Distinct (one ∷ two ∷ three ∷ [])
Distinct-three = (
  omega arith,
  (omega arith, (omega arith, tt)),
  (omega arith, (omega arith, tt), (omega arith, tt, tt)),
)

hello_read : read_message hello.topic hello.props ≡ some hello_msg
unfolding read_message new_msg set_topic
hello_read = refl

-- The first one unsubscribes itself, and subscribes another.
abbrev leaves_first : SubscribeData → List Action
leaves_first s = if s.addr == 1 then subscribes true true two ∷ unsubscribes true 1 ∷ [] else []

abbrev both : Mq
both = mq_of (one ∷ three ∷ [])

message_cb-exact_example :
    (q' : Mq) × (message_cb matches leaves_first 3 hello both ≡ finished q')
    × (q'.delivered
        ≡ both.delivered ++ deliveries matches leaves_first hello hello_msg both.subscribers)
    × (q'.subscribers
        ≡ remaining matches leaves_first hello hello_msg both.subscribers
          ++ (both.new_subscribers ++ joined matches leaves_first hello hello_msg both.subscribers))
    × (q'.new_subscribers ≡ [])
    × (q'.iterating ≡ false)
    × (q'.updated ≡ false)
message_cb-exact_example =
    message_cb-exact matches leaves_first hello hello_msg hello_read both 3 (omega arith)
      Distinct-both ((tt, (refl, tt)), (tt, tt)) refl

-- The last one unsubscribes the first one.
abbrev takes_first : SubscribeData → List Action
takes_first s = if s.addr == 3 then unsubscribes true 1 ∷ [] else []

hits-three : hits matches hello three ≡ true
unfolding compare_topic text_eq c_str matches
hits-three = refl

hits-one : hits matches hello one ≡ true
unfolding compare_topic text_eq c_str matches
hits-one = refl

message_cb_past_end_example :
    message_cb matches takes_first 4 hello (mq_of (one ∷ two ∷ three ∷ [])) ≡ past_end
message_cb_past_end_example =
    message_cb_past_end matches takes_first hello hello_msg hello_read [] one (two ∷ []) three true
      4 (mq_of (one ∷ two ∷ three ∷ [])) refl Distinct-three (refl, (refl, tt)) refl hits-three refl
      (omega arith)

abbrev asks_nothing : SubscribeData → List Action
asks_nothing s = []

abbrev marked : Mq
marked = record (mq_of (one ∷ two ∷ [])) { updated = true }

-- The state that a dispatch leaves, with the iterator at the end.
abbrev dispatched : Mq
dispatched = record (mq_of (one ∷ two ∷ [])) { iterator = some 2 }

unsubscribe-subscribe_example :
    let q' = (subscribe true true three dispatched).0 in
    ((unsubscribe true 3 q').0.subscribers ≡ one ∷ two ∷ [])
    × ((unsubscribe true 3 q').1 ≡ (if true then ok 22 else err mqtt_err))
    × ((unsubscribe true 3 q').0.unsubscribed ≡ [] ++ codes "a" ∷ [])
unsubscribe-subscribe_example =
    unsubscribe-subscribe true true three dispatched refl (omega arith)
      (omega arith, (omega arith, tt))

abbrev dispatching : Mq
dispatching = record (mq_of (one ∷ two ∷ [])) { iterating = true; iterator = some 0 }

abbrev reply : AittMsg
reply = record {
  topic = codes "a";
  correlation = codes "42";
  reply_topic = codes "a_AittRe_0";
  sequence = pos 7;
  end_sequence = false;
  id = 0;
  protocol = mqtt;
}

abbrev reply_out : Publication
unfolding c_str to_string
reply_out = reply_publication reply (codes "yes") 0 false

reply_sent : send_reply true true true true (some reply) (codes "yes") 0 false ≡ ok (some reply_out)
unfolding send_reply reply_out
reply_sent = refl

send_reply-read_message_example :
    read_message reply_out.topic reply_out.props ≡ some (as_received reply)
send_reply-read_message_example =
    send_reply-read_message true true true true reply (codes "yes") 0 false (omega arith)
      (omega arith) reply_sent
