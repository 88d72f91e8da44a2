-- ===== src/Mqtt/Dispatch/Exact.antt =====
-- src/MosquittoMQ.cc: with polite callbacks a message reaches each subscriber of its topic once, in
-- the order of subscription, and the dispatch ends.
use aitt.Base.{
  ℕ, zero, suc, ◌-◌, ◌+◌, ◌<◌, ◌≡◌, refl, sym, ap, ◌∙◌, Bool, true, false, List, [], ◌∷◌, ◌++◌,
  append-nil, append_assoc, Option, some, length, length-append, get_elem?-middle, All, Text, arith,
}
use aitt.Msg.{AittMsg}
use aitt.Mqtt.Message.{read_message}
use aitt.Mqtt.Subscribers.{SubscribeData, Mq, Action}
use aitt.Mqtt.Dispatch.{Incoming, finished, settle, visit, dispatch_loop, message_cb}
use aitt.Mqtt.Dispatch.Polite.{IsPolite}
use aitt.Mqtt.Dispatch.Spec.{Distinct, deliveries, remaining, joined, deliveries-cons, joined-cons}
use aitt.Mqtt.Dispatch.Rounds.{At, Round, Round-trans, Apart, Apart-nil, Step, step}

module _ (topic_matches_sub : Text → Text → Option Bool) (asks : SubscribeData → List Action)
    (m : Incoming) (msg : AittMsg) where
  abbrev pub ArePolite : List SubscribeData → Type 0
  ArePolite = All (λ s. All (IsPolite s) (asks s))

  module _ (readable : read_message m.topic m.props ≡ some msg) where
    pub loop_round :
        (done : List SubscribeData) (s : SubscribeData) (rest : List SubscribeData) (fuel : ℕ)
        (q q' : Mq)
        → At done (s ∷ rest) q
        → visit topic_matches_sub asks s m q ≡ some q'
        → dispatch_loop topic_matches_sub asks (suc fuel) m q
          ≡ dispatch_loop topic_matches_sub asks fuel m q'
    unfolding dispatch_loop
    loop_round done s rest fuel q q' g e =
        ground (arith, get_elem?-middle done s rest, length-append done (s ∷ rest))

    -- The loop from its head over `rest`, up to the subscribers of `more`.
    pub record Passes (done rest more : List SubscribeData) (q q' : Mq) (n fuel : ℕ) : Type 0 where
      pub runs :
          dispatch_loop topic_matches_sub asks n m q
          ≡ dispatch_loop topic_matches_sub asks fuel m q'
      pub head : At (done ++ remaining topic_matches_sub asks m msg rest) more q'
      pub round :
          Round
            (deliveries topic_matches_sub asks m msg rest)
            (joined topic_matches_sub asks m msg rest)
            q
            q'

    Passes-step :
        (done : List SubscribeData) (s : SubscribeData) (rest more : List SubscribeData)
        {q q' q'' : Mq} {n fuel : ℕ}
        (st : Step topic_matches_sub asks m msg readable done s (rest ++ more) q q')
        → dispatch_loop topic_matches_sub asks (suc n) m q
          ≡ dispatch_loop topic_matches_sub asks n m q'
        → Passes (done ++ st.kept) rest more q' q'' n fuel
        → Passes done (s ∷ rest) more q q'' (suc n) fuel
    Passes-step done s rest more {q'' = q''} st e r = record {
      runs = e ∙ r.runs;
      head =
          rw (st.stays rest) (
            rw (append_assoc done st.kept (remaining topic_matches_sub asks m msg rest)) at r.head);
      round =
          rw
            (
              deliveries-cons topic_matches_sub asks m msg s rest,
              joined-cons topic_matches_sub asks m msg s rest,
            )
            (Round-trans st.round r.round);
    }

    pub loop-Passes :
        (done rest more : List SubscribeData) (n fuel : ℕ) (q : Mq)
        → n ≡ length rest + fuel
        → Distinct (rest ++ more)
        → Apart done (rest ++ more)
        → ArePolite rest
        → At done (rest ++ more) q
        → (q' : Mq) × Passes done rest more q q' n fuel
    unfolding remaining deliveries joined
    loop-Passes done [] more n fuel q f d a p g = (
      q,
      record {
        runs = ap (λ k. dispatch_loop topic_matches_sub asks k m q) (omega arith);
        head = rw (append-nil done) g;
        round = record {
          heard = sym (append-nil q.delivered);
          added = sym (append-nil q.new_subscribers);
        };
      },
    )
    loop-Passes done (s ∷ rest) more zero fuel q f d a p g = absurd (omega arith)
    loop-Passes done (s ∷ rest) more (suc n) fuel q f d a p g =
        let (q', st) =
          step topic_matches_sub asks m msg readable done s (rest ++ more) q d a p.0 g in
        let (q'', passes) =
          loop-Passes (done ++ st.kept) rest more n fuel q' (omega arith) d.2 st.apart p.1
            st.head in
        (
          q'',
          Passes-step done s rest more st (loop_round done s (rest ++ more) n q q' g st.seen)
              passes,
        )

    pub loop_done :
        (done : List SubscribeData) (fuel : ℕ) (q : Mq)
        → At done [] q
        → 0 < fuel
        → dispatch_loop topic_matches_sub asks fuel m q ≡ finished q
    unfolding dispatch_loop
    loop_done done zero q g h = elim h [ ]
    loop_done done (suc fuel) q g h = ground (arith, append-nil done)

    -- A message that can be read is dispatched in at most one round for each subscriber and one
    -- more, and is delivered exactly once, in the order of subscription, to each subscriber whose
    -- topic matches. A subscriber whose callback unsubscribes it is gone; those that callbacks
    -- subscribe come last and have not been told of this message. The addresses are all
    -- different, the callbacks unsubscribe at most their own subscribers, and no earlier call has
    -- left the mark of a moved iterator.
    pub message_cb-exact :
        (q : Mq) (fuel : ℕ)
        → length q.subscribers < fuel
        → Distinct q.subscribers
        → ArePolite q.subscribers
        → q.updated ≡ false
        → (q' : Mq) × (message_cb topic_matches_sub asks fuel m q ≡ finished q')
          × (q'.delivered ≡ q.delivered ++ deliveries topic_matches_sub asks m msg q.subscribers)
          × (q'.subscribers
              ≡ remaining topic_matches_sub asks m msg q.subscribers
                ++ (q.new_subscribers ++ joined topic_matches_sub asks m msg q.subscribers))
          × (q'.new_subscribers ≡ [])
          × (q'.iterating ≡ false)
          × (q'.updated ≡ false)
    unfolding message_cb settle
    message_cb-exact q fuel f d p u =
        let q0 : Mq = record q { iterating = true; iterator = some 0 } in
        let all : q.subscribers ++ [] ≡ q.subscribers = append-nil q.subscribers in
        let (q', passes) =
          loop-Passes [] q.subscribers [] fuel (fuel - length q.subscribers) q0 (omega arith)
            (rw all d) (Apart-nil _) p
            (record { held = sym all; here = refl; running = refl; untouched = u }) in
        let runs =
          passes.runs ∙ loop_done _ (fuel - length q.subscribers) q' passes.head (omega arith) in
        (
          settle q',
          ground (arith, runs),
          passes.round.heard,
          ground (
            arith,
            passes.head.held,
            passes.round.added,
            append-nil (remaining topic_matches_sub asks m msg q.subscribers),
          ),
          refl,
          refl,
          passes.head.untouched,
        )
