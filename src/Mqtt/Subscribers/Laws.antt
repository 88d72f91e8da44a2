-- ===== src/Mqtt/Subscribers/Laws.antt =====
-- src/MosquittoMQ.cc: `Subscribe` and `Unsubscribe` undo one another outside a dispatch, and what
-- `Unsubscribe` answers on its other branches.
use aitt.Base.{
  ◌≡◌, ◌≢◌, Bool, true, false, [], ◌∷◌, ◌++◌, append-nil, erase_at-middle, if◌then◌else◌, arith,
}
use aitt.Types.{ok, err, no_data_err, mqtt_err}
use aitt.Mqtt.Subscribers.{SubscribeData, Mq, subscribe, unsubscribe}
use aitt.Mqtt.Subscribers.Find.{NotIn, find-middle, find-eq-none}

-- Outside a dispatch, a subscriber with a new address that is unsubscribed leaves the vector as
-- it was, whatever libmosquitto answers to the second call, and only its answer decides whether
-- `Unsubscribe` gives the user data back or throws.
pub unsubscribe-subscribe :
    (accepted moved : Bool) (s : SubscribeData) (q : Mq)
    → q.iterating ≡ false
    → s.addr ≢ 0
    → NotIn s.addr q.subscribers
    → let q' = (subscribe true moved s q).0 in
      ((unsubscribe accepted s.addr q').0.subscribers ≡ q.subscribers)
      × ((unsubscribe accepted s.addr q').1 ≡ (if accepted then ok s.user_data else err mqtt_err))
      × ((unsubscribe accepted s.addr q').0.unsubscribed ≡ q.unsubscribed ++ s.topic ∷ [])
unfolding subscribe unsubscribe
unsubscribe-subscribe accepted moved s q idle real fresh = ground (
  arith,
  find-middle q.subscribers s [] fresh,
  erase_at-middle q.subscribers s [],
  append-nil q.subscribers,
)

-- A subscriber with a new address that came during a dispatch cannot be unsubscribed before the
-- dispatch is over: it stands among the new ones, `Unsubscribe` looks for it among the
-- subscribers alone, throws and changes nothing.
pub unsubscribe_pending :
    (accepted moved : Bool) (s : SubscribeData) (q : Mq)
    → q.iterating ≡ true
    → s.addr ≢ 0
    → NotIn s.addr q.subscribers
    → let q' = (subscribe true moved s q).0 in
      (q'.new_subscribers ≡ q.new_subscribers ++ s ∷ [])
      × (unsubscribe accepted s.addr q' ≡ (q', err no_data_err))
unfolding subscribe unsubscribe
unsubscribe_pending accepted moved s q busy real fresh =
    ground (arith, find-eq-none s.addr q.subscribers fresh)
