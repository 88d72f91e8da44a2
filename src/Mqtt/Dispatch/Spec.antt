-- ===== src/Mqtt/Dispatch/Spec.antt =====
-- src/MosquittoMQ.cc: what a message should bring about, told from the subscribers alone.
use aitt.Base.{
  ◌≡◌, ◌≢◌, Bool, ◌&&◌, List, [], ◌∷◌, ◌++◌, append_assoc, Option, if◌then◌else◌, Text, arith,
}
use aitt.Msg.{AittMsg}
use aitt.Mqtt.Subscribers.{SubscribeData, Delivery, Action}
use aitt.Mqtt.Subscribers.Find.{NotIn}
use aitt.Mqtt.Dispatch.{Incoming, compare_topic}
use aitt.Mqtt.Dispatch.Polite.{leaves, joins}

-- Every address is real and stands once.
abbrev pub Distinct : List SubscribeData → Type 0
Distinct [] = Unit {0}
Distinct (s ∷ ss) = (s.addr ≢ 0) × NotIn s.addr ss × Distinct ss

abbrev pub hits : (Text → Text → Option Bool) → Incoming → SubscribeData → Bool
hits topic_matches_sub m s = compare_topic topic_matches_sub s.topic m.topic

abbrev pub delivery : AittMsg → Incoming → SubscribeData → Delivery
delivery msg m s = record { to = s; msg = msg; payload = m.payload }

module _ (topic_matches_sub : Text → Text → Option Bool) (asks : SubscribeData → List Action)
    (m : Incoming) (msg : AittMsg) where
  -- One call for each subscriber whose topic matches.
  unfoldable pub deliveries : List SubscribeData → List Delivery
  deliveries [] = []
  deliveries (s ∷ ss) =
      if hits topic_matches_sub m s then delivery msg m s ∷ deliveries ss else deliveries ss

  -- The subscribers that stay: all but those that are called and unsubscribe.
  unfoldable pub remaining : List SubscribeData → List SubscribeData
  remaining [] = []
  remaining (s ∷ ss) =
      if hits topic_matches_sub m s && leaves (asks s) then remaining ss else s ∷ remaining ss

  unfoldable pub joined : List SubscribeData → List SubscribeData
  joined [] = []
  joined (s ∷ ss) = if hits topic_matches_sub m s then joins (asks s) ++ joined ss else joined ss

  pub deliveries-cons :
      (s : SubscribeData) (rest : List SubscribeData)
      → deliveries (s ∷ rest) ≡ deliveries (s ∷ []) ++ deliveries rest
  unfolding deliveries
  deliveries-cons s rest = ground arith

  pub joined-cons :
      (s : SubscribeData) (rest : List SubscribeData)
      → joined (s ∷ rest) ≡ joined (s ∷ []) ++ joined rest
  unfolding joined
  joined-cons s rest = ground (arith, append_assoc (joins (asks s)) [] (joined rest))
