-- ===== src/Mqtt/Dispatch/PastEnd.antt =====
-- src/MosquittoMQ.cc: `Unsubscribe` of a subscriber before `subscriber_iterator`, by the callback of
-- the last one: the iterator is not moved back with the elements.
use aitt.Base.{
  ℕ, zero, suc, ◌-◌, ◌<◌, ◌≡◌, refl, sym, ap, ◌∙◌, ◌≢◌, Bool, true, false, List, [], ◌∷◌, ◌++◌,
  append_assoc, Option, none, some, length, length-append, get_elem?, erase_at-middle, All, Text,
  arith,
}
use aitt.Msg.{AittMsg}
use aitt.Mqtt.Message.{read_message}
use aitt.Mqtt.Subscribers.{SubscribeData, Mq, Action, unsubscribes, act, act_all, unsubscribe}
use aitt.Mqtt.Subscribers.Find.{NotIn, find-middle}
use aitt.Mqtt.Dispatch.{Incoming, past_end, advance, visit, dispatch_loop, message_cb}
use aitt.Mqtt.Dispatch.Polite.{IsPolite, leaves}
use aitt.Mqtt.Dispatch.Spec.{Distinct, hits, delivery, remaining}
use aitt.Mqtt.Dispatch.Rounds.{At, Apart-nil}
use aitt.Mqtt.Dispatch.Exact.{loop-Passes, loop_round}

get_elem?-beyond {ℓ} : {A : Type ℓ} (xs : List A) (i : ℕ) → length xs < i → get_elem? xs i ≡ none
get_elem?-beyond [] i h = refl
get_elem?-beyond (x ∷ xs) zero h = elim h [ ]
get_elem?-beyond (x ∷ xs) (suc i) h = get_elem?-beyond xs i (omega arith)

NotIn-middle :
    (a : ℕ) (before : List SubscribeData) (d : SubscribeData) (more : List SubscribeData)
    → NotIn a (before ++ d ∷ more)
    → d.addr ≢ a
NotIn-middle a [] d more h = h.0
NotIn-middle a (b ∷ before) d more h = NotIn-middle a before d more h.1

Distinct-middle :
    (before : List SubscribeData) (d : SubscribeData) (more : List SubscribeData)
    → Distinct (before ++ d ∷ more)
    → NotIn d.addr before × (d.addr ≢ 0)
Distinct-middle [] d more h = (tt, h.0)
Distinct-middle (b ∷ before) d more h =
    let (apart, real) = Distinct-middle before d more h.2 in
    (((λ e. NotIn-middle b.addr before d more h.1 (sym e)), apart), real)

quiet-IsPolite :
    (asks : SubscribeData → List Action) (l : List SubscribeData)
    → All (λ t. asks t ≡ []) l
    → All (λ t. All (IsPolite t) (asks t)) l
quiet-IsPolite asks [] h = tt
quiet-IsPolite asks (t ∷ l) h = (rw h.0 tt, quiet-IsPolite asks l h.1)

-- A subscriber before the iterator is erased: the others move up and the iterator does not.
earlier_act :
    (before : List SubscribeData) (d : SubscribeData) (more : List SubscribeData) (i : ℕ)
    (accepted : Bool) (q : Mq)
    → q.subscribers ≡ before ++ d ∷ more
    → q.iterator ≡ some i
    → length before < i
    → NotIn d.addr before
    → d.addr ≢ 0
    → let q' = act (unsubscribes accepted d.addr) q in
      (q'.subscribers ≡ before ++ more) × (q'.iterator ≡ some i) × (q'.updated ≡ q.updated)
unfolding act unsubscribe
earlier_act before d more i accepted q held here lt fresh real =
    ground (arith, find-middle before d more fresh, erase_at-middle before d more)

module _ (topic_matches_sub : Text → Text → Option Bool) (asks : SubscribeData → List Action)
    (m : Incoming) (msg : AittMsg) (readable : read_message m.topic m.props ≡ some msg) where
  skewed_visit :
      (before : List SubscribeData) (d : SubscribeData) (more : List SubscribeData)
      (s : SubscribeData) (i : ℕ) (accepted : Bool) (q : Mq)
      → q.subscribers ≡ before ++ d ∷ more
      → q.iterator ≡ some i
      → q.updated ≡ false
      → length before < i
      → NotIn d.addr before
      → d.addr ≢ 0
      → s.addr ≢ 0
      → hits topic_matches_sub m s ≡ true
      → asks s ≡ unsubscribes accepted d.addr ∷ []
      → (q' : Mq) × (visit topic_matches_sub asks s m q ≡ some q')
        × (q'.subscribers ≡ before ++ more)
        × (q'.iterator ≡ some (suc i))
  unfolding visit act_all
  skewed_visit before d more s i accepted q held here clear lt fresh real_d real hit only =
      let q1 : Mq = record q { delivered = q.delivered ++ delivery msg m s ∷ [] } in
      let (e1, e2, e3) = earlier_act before d more i accepted q1 held here lt fresh real_d in
      (
        advance (act (unsubscribes accepted d.addr) q1),
        ground (arith, readable),
        ground (arith, e1, e2, e3),
        ground (arith, e1, e2, e3),
      )

  -- The iterator is past the end, so it meets no end.
  beyond_end :
      (fuel i : ℕ) (q : Mq)
      → q.iterator ≡ some i
      → length q.subscribers < i
      → dispatch_loop topic_matches_sub asks (suc fuel) m q ≡ past_end
  unfolding dispatch_loop
  beyond_end fuel i q here lt = ground (arith, get_elem?-beyond q.subscribers i lt)

  last_round :
      (done : List SubscribeData) (s : SubscribeData) (fuel : ℕ) (q q' : Mq) (i : ℕ)
      → At done (s ∷ []) q
      → visit topic_matches_sub asks s m q ≡ some q'
      → q'.iterator ≡ some i
      → length q'.subscribers < i
      → dispatch_loop topic_matches_sub asks (suc (suc fuel)) m q ≡ past_end
  last_round done s fuel q q' i g seen here lt =
      loop_round topic_matches_sub asks m msg readable done s [] (suc fuel) q q' g seen
      ∙ beyond_end fuel i q' here lt

  remaining_quiet :
      (l : List SubscribeData)
      → All (λ t. asks t ≡ []) l
      → remaining topic_matches_sub asks m msg l ≡ l
  unfolding remaining leaves
  remaining_quiet [] h = refl
  remaining_quiet (t ∷ l) h = ground (arith, remaining_quiet l h.1)

  last_rounds :
      (before : List SubscribeData) (d : SubscribeData) (after : List SubscribeData)
      (s : SubscribeData) (accepted : Bool) (fuel : ℕ) (q : Mq)
      → At (before ++ d ∷ after) (s ∷ []) q
      → Distinct ((before ++ d ∷ after) ++ s ∷ [])
      → hits topic_matches_sub m s ≡ true
      → asks s ≡ unsubscribes accepted d.addr ∷ []
      → 1 < fuel
      → dispatch_loop topic_matches_sub asks fuel m q ≡ past_end
  last_rounds before d after s accepted zero q g dis hit only h = elim h [ ]
  last_rounds before d after s accepted (suc zero) q g dis hit only h = absurd (omega arith)
  last_rounds before d after s accepted (suc (suc fuel)) q g dis hit only h =
      let l = before ++ d ∷ after in
      let e = append_assoc before (d ∷ after) (s ∷ []) in
      let (apart, real) = Distinct-middle before d (after ++ s ∷ []) (rw e at dis) in
      let (q', seen, held, here) =
        skewed_visit before d (after ++ s ∷ []) s (length l) accepted q (g.held ∙ e) g.here
          g.untouched (omega (arith, length-append before (d ∷ after))) apart real
          (Distinct-middle l s [] dis).1 hit only in
      last_round l s fuel q q' (suc (length l)) g seen here (
        omega (
          arith,
          ap length held,
          length-append before (after ++ s ∷ []),
          length-append after (s ∷ []),
          length-append before (d ∷ after),
        ))

  -- If only the last subscriber's callback asks for anything, and that is to unsubscribe an earlier
  -- subscriber, the dispatch of a message for it that can be read runs past the end. The addresses are
  -- all different, no earlier call has left the mark of a moved iterator, and there are more rounds
  -- than subscribers.
  pub message_cb_past_end :
      (before : List SubscribeData) (d : SubscribeData) (after : List SubscribeData)
      (s : SubscribeData) (accepted : Bool) (fuel : ℕ) (q : Mq)
      → q.subscribers ≡ (before ++ d ∷ after) ++ s ∷ []
      → Distinct ((before ++ d ∷ after) ++ s ∷ [])
      → All (λ t. asks t ≡ []) (before ++ d ∷ after)
      → q.updated ≡ false
      → hits topic_matches_sub m s ≡ true
      → asks s ≡ unsubscribes accepted d.addr ∷ []
      → length q.subscribers < fuel
      → message_cb topic_matches_sub asks fuel m q ≡ past_end
  unfolding message_cb
  message_cb_past_end before d after s accepted fuel q held dis quiet clear hit only enough =
      let l = before ++ d ∷ after in
      let q0 : Mq = record q { iterating = true; iterator = some 0 } in
      let fuel' = fuel - length l in
      let (q1, passes) =
        loop-Passes topic_matches_sub asks m msg readable [] l (s ∷ []) fuel fuel' q0
          (omega (arith, ap length held, length-append l (s ∷ []))) dis (Apart-nil _)
          (quiet-IsPolite asks l quiet)
          (record { held = held; here = refl; running = refl; untouched = clear }) in
      let head : At l (s ∷ []) q1 = rw (remaining_quiet l quiet) at passes.head in
      let ends : dispatch_loop topic_matches_sub asks fuel' m q1 ≡ past_end =
        last_rounds before d after s accepted fuel' q1 head dis hit only
          (omega (arith, ap length held, length-append l (s ∷ []))) in
      ground (arith, passes.runs, ends)
