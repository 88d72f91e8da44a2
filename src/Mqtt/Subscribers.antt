-- ===== src/Mqtt/Subscribers.antt =====
-- src/MosquittoMQ.cc: the vector of subscribers, `Subscribe` and `Unsubscribe`, also when a
-- callback calls them while a message is dispatched. A subscriber is known by its address, and
-- `subscriber_iterator` is a position in the vector: `none` where it points into no storage of the
-- vector. Positions behave as in contiguous storage: `erase` shifts what stands behind it.
pub mod Find
pub mod Laws
use aitt.Base.{
  ℕ, suc, ◌==◌, Bool, true, false, List, [], ◌∷◌, ◌++◌, Option, none, some, if◌then◌else◌, erase_at,
  Text,
}
use aitt.Types.{Result, ok, err, mqtt_err, no_data_err}
use aitt.Msg.{AittMsg}

-- `SubscribeData`, with its address (0 for nullptr). `cb` names the callback.
pub record SubscribeData : Type 0 where
  pub addr : ℕ
  pub topic : Text
  pub cb : ℕ
  pub user_data : ℕ

-- A call of a subscriber's callback.
pub record Delivery : Type 0 where
  pub to : SubscribeData
  pub msg : AittMsg
  pub payload : Text

-- `delivered` records the calls of callbacks, `unsubscribed` those of `mosquitto_unsubscribe`.
pub record Mq : Type 0 where
  pub subscribers : List SubscribeData
  pub iterating : Bool
  pub new_subscribers : List SubscribeData
  pub iterator : Option ℕ
  pub updated : Bool
  pub delivered : List Delivery
  pub unsubscribed : List Text

-- The state that the constructor leaves.
abbrev pub new_mq : Mq
new_mq = record {
  subscribers = [];
  iterating = false;
  new_subscribers = [];
  iterator = none;
  updated = false;
  delivered = [];
  unsubscribed = [];
}

abbrev behind : Option (ℕ × SubscribeData) → Option (ℕ × SubscribeData)
behind none = none
behind (some (i, s)) = some (suc i, s)

-- `std::find` by address: the position, and what stands there.
unfoldable pub find : ℕ → List SubscribeData → Option (ℕ × SubscribeData)
find a [] = none
find a (s ∷ ss) = if s.addr == a then some (0, s) else behind (find a ss)

-- The comparison `subscriber_iterator == it`.
abbrev pub points_at : Option ℕ → ℕ → Bool
points_at none i = false
points_at (some j) i = j == i

-- `sub` is the new subscriber; `accepted` is the answer of `mosquitto_subscribe`; `moved` says that
-- `push_back` had to move the vector to other storage.
unfoldable pub subscribe : (accepted moved : Bool) → SubscribeData → Mq → Mq × Result ℕ
subscribe false moved sub q = (q, err mqtt_err)
subscribe true moved sub q =
    if q.iterating
    then (record q { new_subscribers = q.new_subscribers ++ sub ∷ [] }, ok sub.addr)
    else (
      record q {
        subscribers = q.subscribers ++ sub ∷ [];
        iterator = if moved then none else q.iterator;
      },
      ok sub.addr,
    )

-- `erase` at position i, and the iterator with it.
unfoldable pub remove_at : ℕ → Mq → Mq
remove_at i q = record q {
  subscribers = erase_at i q.subscribers;
  updated = if points_at q.iterator i then true else q.updated;
}

-- `accepted` is the answer of `mosquitto_unsubscribe`; a refusal is reported when the subscriber is
-- already gone. A null handle returns nullptr.
unfoldable pub unsubscribe : (accepted : Bool) → ℕ → Mq → Mq × Result ℕ
unfolding remove_at
unsubscribe accepted a q = if a == 0 then (q, ok 0) else elim (find a q.subscribers) [
  | none ↦ (q, err no_data_err)
  | some (i, s) ↦ (
    record (remove_at i q) { unsubscribed = q.unsubscribed ++ s.topic ∷ [] },
    if accepted then ok s.user_data else err mqtt_err,
  )
]

-- What a callback asks of the object while it runs.
pub data Action : Type 0 where
  subscribes : (accepted moved : Bool) → SubscribeData → Action
  unsubscribes : (accepted : Bool) → (a : ℕ) → Action

-- The callback catches what a call throws.
unfoldable pub act : Action → Mq → Mq
unfolding subscribe unsubscribe
act (subscribes accepted moved s) q = (subscribe accepted moved s q).0
act (unsubscribes accepted a) q = (unsubscribe accepted a q).0

unfoldable pub act_all : List Action → Mq → Mq
unfolding act
act_all [] q = q
act_all (a ∷ rest) q = act_all rest (act a q)
