-- ===== src/Mqtt/Dispatch.antt =====
-- src/MosquittoMQ.cc: `MessageCB` and `InvokeCallback`, the dispatch of one message.
pub mod Polite
pub mod Spec
pub mod Rounds
pub mod Exact
pub mod PastEnd
pub mod Doubled
use aitt.Base.{
  ℕ, zero, suc, ◌==◌, Bool, true, false, List, [], ◌∷◌, ◌++◌, Option, none, some, if◌then◌else◌,
  length, get_elem?, Text, c_str,
}
use aitt.Msg.{AittMsg}
use aitt.Mqtt.Message.{Props, read_message}
use aitt.Mqtt.Subscribers.{SubscribeData, Mq, Action, act_all}

-- `mosquitto_message`, with its properties.
pub record Incoming : Type 0 where
  pub topic : Text
  pub payload : Text
  pub props : Option Props

-- How the dispatch ends: it returns, an exception leaves the callback of libmosquitto, it goes on
-- past the end of the vector, or the given number of rounds was too small.
pub data Dispatch : Type 0 where
  finished : Mq → Dispatch
  thrown past_end unfinished : Dispatch

-- `mosquitto_topic_matches_sub` answers with an error (`none`) or says whether the topic matches.
unfoldable pub compare_topic : (Text → Text → Option Bool) → Text → Text → Bool
compare_topic topic_matches_sub left right = elim (topic_matches_sub (c_str left) (c_str right)) [
  | none ↦ false
  | some result ↦ result
]

-- `++subscriber_iterator`.
abbrev pub next_position : Mq → Mq
next_position q = record q { iterator = elim q.iterator [ none ↦ none | some i ↦ some (suc i) ] }

-- The end of a round: the iterator moves on, unless an `erase` has moved it.
unfoldable pub advance : Mq → Mq
advance q = if q.updated then record q { updated = false } else next_position q

-- Subscribers that came while the message was dispatched are appended.
unfoldable pub settle : Mq → Mq
settle q = record q {
  iterating = false;
  subscribers = q.subscribers ++ q.new_subscribers;
  new_subscribers = [];
}

-- `topic_matches_sub` is libmosquitto's, and `asks` says what a callback does when it is called.
module _ (topic_matches_sub : Text → Text → Option Bool) (asks : SubscribeData → List Action) where
  -- The callback is called, and runs. `none` is an exception of `std::stoi`.
  unfoldable pub invoke : SubscribeData → Incoming → Mq → Option Mq
  invoke s m q = elim (read_message m.topic m.props) [
    | none ↦ none
    | some msg ↦ some (
        act_all (asks s) (record q {
          delivered = q.delivered ++ record { to = s; msg = msg; payload = m.payload } ∷ [];
        }))
  ]

  -- The body of the loop at the subscriber s.
  unfoldable pub visit : SubscribeData → Incoming → Mq → Option Mq
  unfolding invoke advance
  visit s m q =
      if s.addr == 0
      then some (next_position q)
      else if compare_topic topic_matches_sub s.topic m.topic
      then (elim (invoke s m q) [ none ↦ none | some q' ↦ some (advance q') ])
      else some (advance q)

  -- One round a unit of fuel. The test compares the iterator with the end of the vector.
  unfoldable pub dispatch_loop : ℕ → Incoming → Mq → Dispatch
  dispatch_loop zero m q = unfinished
  dispatch_loop (suc fuel) m q = elim q.iterator [
    | none ↦ past_end
    | some i ↦ elim (i == length q.subscribers) [
      | true ↦ finished q
      | false ↦ elim (get_elem? q.subscribers i) [
        | none ↦ past_end
        | some s ↦ elim (visit s m q) [ none ↦ thrown | some q' ↦ dispatch_loop fuel m q' ]
      ]
    ]
  ]

  unfoldable pub message_cb : ℕ → Incoming → Mq → Dispatch
  unfolding settle
  message_cb fuel m q =
      elim (dispatch_loop fuel m (record q { iterating = true; iterator = some 0 })) [
        | finished q' ↦ finished (settle q')
        | thrown ↦ thrown
        | past_end ↦ past_end
        | unfinished ↦ unfinished
      ]
