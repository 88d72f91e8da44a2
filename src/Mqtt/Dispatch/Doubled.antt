-- ===== src/Mqtt/Dispatch/Doubled.antt =====
-- src/MosquittoMQ.cc: `subscriber_iterator_updated` set outside a dispatch, by an iterator that an
-- earlier dispatch has left.
use aitt.Base.{
  ℕ, zero, suc, ◌+◌, ◌-◌, ◌<◌, ◌≡◌, refl, sym, ap, ◌∙◌, ◌≢◌, Bool, true, false, List, [], ◌∷◌, ◌++◌,
  append-nil, append_assoc, Option, some, length, erase_at-middle, Text, subst, arith,
}
use aitt.Msg.{AittMsg}
use aitt.Mqtt.Message.{read_message}
use aitt.Mqtt.Subscribers.{SubscribeData, Mq, Action, act_all, subscribe, unsubscribe}
use aitt.Mqtt.Subscribers.Find.{NotIn, find-middle}
use aitt.Mqtt.Dispatch.{Incoming, finished, settle, visit, dispatch_loop, message_cb}
use aitt.Mqtt.Dispatch.Spec.{Distinct, hits, delivery, deliveries}
use aitt.Mqtt.Dispatch.Rounds.{Apart-nil}
use aitt.Mqtt.Dispatch.Exact.{ArePolite, loop-Passes, loop_done}

-- Outside a dispatch, the iterator of an earlier one, at the end of the vector, is where the next new
-- subscriber stands, if the vector does not move. Unsubscribing that one leaves the vector as it
-- was, but marks the iterator as moved.
pub unsubscribe_marks :
    (accepted : Bool) (s : SubscribeData) (q : Mq)
    → q.iterating ≡ false
    → q.iterator ≡ some (length q.subscribers)
    → s.addr ≢ 0
    → NotIn s.addr q.subscribers
    → let q' = (unsubscribe accepted s.addr (subscribe true false s q).0).0 in
      (q'.subscribers ≡ q.subscribers) × (q'.updated ≡ true)
unfolding subscribe unsubscribe
unsubscribe_marks accepted s q idle e real fresh = ground (
  arith,
  find-middle q.subscribers s [] fresh,
  erase_at-middle q.subscribers s [],
  append-nil q.subscribers,
)

module _ (topic_matches_sub : Text → Text → Option Bool) (asks : SubscribeData → List Action)
    (m : Incoming) (msg : AittMsg) (readable : read_message m.topic m.props ≡ some msg) where
  -- The first round, under the mark: the iterator stays where it is.
  marked_round :
      (s : SubscribeData) (rest : List SubscribeData) (fuel : ℕ) (q : Mq)
      → q.subscribers ≡ s ∷ rest
      → q.iterator ≡ some 0
      → q.updated ≡ true
      → s.addr ≢ 0
      → hits topic_matches_sub m s ≡ true
      → asks s ≡ []
      → dispatch_loop topic_matches_sub asks (suc fuel) m q
        ≡ dispatch_loop topic_matches_sub asks fuel m
            (record q { updated = false; delivered = q.delivered ++ delivery msg m s ∷ [] })
  unfolding dispatch_loop visit act_all
  marked_round s rest fuel q held here mark real hit quiet = ground (arith, readable)

  -- A dispatch that begins under the mark calls the first subscriber twice, if it matches and its
  -- callback asks for nothing, and then each subscriber whose topic matches, as it should. The
  -- addresses are all different, callbacks unsubscribe at most their own subscribers, and there are
  -- two more rounds than subscribers.
  pub message_cb_doubled :
      (s : SubscribeData) (rest : List SubscribeData) (fuel : ℕ) (q : Mq)
      → q.subscribers ≡ s ∷ rest
      → Distinct (s ∷ rest)
      → ArePolite topic_matches_sub asks m msg (s ∷ rest)
      → q.updated ≡ true
      → hits topic_matches_sub m s ≡ true
      → asks s ≡ []
      → length q.subscribers + 1 < fuel
      → (q' : Mq) × (message_cb topic_matches_sub asks fuel m q ≡ finished q')
        × (q'.delivered
            ≡ q.delivered
              ++ (delivery msg m s ∷ deliveries topic_matches_sub asks m msg (s ∷ rest)))
  unfolding message_cb
  message_cb_doubled s rest zero q held dis polite marked hit quiet enough = elim enough [ ]
  message_cb_doubled s rest (suc fuel) q held dis polite marked hit quiet enough =
      let q0 : Mq = record q { iterating = true; iterator = some 0 } in
      let q1 : Mq = record q0 {
        updated = false;
        delivered = q.delivered ++ delivery msg m s ∷ [];
      } in
      let first = marked_round s rest fuel q0 held refl marked dis.0 hit quiet in
      let (q2, passes) =
        loop-Passes topic_matches_sub asks m msg readable [] (s ∷ rest) [] fuel
          (fuel - length (s ∷ rest)) q1 (omega (arith, ap length held))
          (subst Distinct (sym (append-nil (s ∷ rest))) dis) (Apart-nil (s ∷ rest ++ [])) polite
          (record {
            held = held ∙ sym (append-nil (s ∷ rest));
            here = refl;
            running = refl;
            untouched = refl;
          }) in
      let last =
        loop_done topic_matches_sub asks m msg readable _ (fuel - length (s ∷ rest)) q2 passes.head
          (omega (arith, ap length held)) in
      (
        settle q2,
        ground (arith, first, passes.runs, last),
        passes.round.heard ∙ append_assoc q.delivered (delivery msg m s ∷ []) _,
      )
