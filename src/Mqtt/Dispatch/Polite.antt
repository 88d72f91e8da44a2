-- ===== src/Mqtt/Dispatch/Polite.antt =====
-- src/MosquittoMQ.cc: callbacks that subscribe others and unsubscribe at most their own subscriber,
-- as those of `AITT::Impl::PublishWithReply` do, and what such a callback does to the vector.
use aitt.Base.{
  ℕ, ◌≡◌, refl, sym, inl, inr, ◌⊎◌, ◌≢◌, ◌∙◌, ap, Bool, true, false, List, [], ◌∷◌, ◌++◌,
  append-nil, append_assoc, some, if◌then◌else◌, length, erase_at-middle, All, arith,
}
use aitt.Mqtt.Subscribers.{
  SubscribeData, Mq, Action, subscribes, unsubscribes, act, act_all, subscribe, unsubscribe,
}
use aitt.Mqtt.Subscribers.Find.{NotIn, find-middle, find-eq-none, NotIn-append}

abbrev pub IsPolite : SubscribeData → Action → Type 0
IsPolite s (subscribes accepted moved t) = Unit {0}
IsPolite s (unsubscribes accepted a) = a ≡ s.addr

-- Whether the callback's own subscriber leaves, and which subscribers come.
unfoldable pub leaves : List Action → Bool
leaves [] = false
leaves (subscribes accepted moved t ∷ rest) = leaves rest
leaves (unsubscribes accepted a ∷ rest) = true

unfoldable pub joins : List Action → List SubscribeData
joins [] = []
joins (subscribes accepted moved t ∷ rest) = if accepted then t ∷ joins rest else joins rest
joins (unsubscribes accepted a ∷ rest) = joins rest

-- The vector while the callback of s runs: s stands at the iterator, or has been erased there.
pub record Present (done : List SubscribeData) (s : SubscribeData) (rest : List SubscribeData)
    (q : Mq) : Type 0 where
  pub held : q.subscribers ≡ done ++ s ∷ rest
  pub here : q.iterator ≡ some (length done)
  pub running : q.iterating ≡ true
  pub untouched : q.updated ≡ false

pub record Gone (done rest : List SubscribeData) (q : Mq) : Type 0 where
  pub held : q.subscribers ≡ done ++ rest
  pub here : q.iterator ≡ some (length done)
  pub running : q.iterating ≡ true
  pub moved : q.updated ≡ true

-- What every such callback leaves alone, and whom it adds.
pub record Adds (ts : List SubscribeData) (q q' : Mq) : Type 0 where
  pub told : q'.delivered ≡ q.delivered
  pub added : q'.new_subscribers ≡ q.new_subscribers ++ ts

joins-cons : (a : Action) (as' : List Action) → joins (a ∷ as') ≡ joins (a ∷ []) ++ joins as'
unfolding joins
joins-cons (subscribes true moved t) as' = refl
joins-cons (subscribes false moved t) as' = refl
joins-cons (unsubscribes accepted a) as' = refl

Adds-cons :
    (a : Action) (as' : List Action) {q q' q'' : Mq}
    → Adds (joins (a ∷ [])) q q'
    → Adds (joins as') q' q''
    → Adds (joins (a ∷ as')) q q''
Adds-cons a as' {q} {q'} {q''} d d' = record {
  told = d'.told ∙ d.told;
  added = rw (joins-cons a as') (
      d'.added
      ∙ ap (λ ts. ts ++ joins as') d.added
      ∙ append_assoc q.new_subscribers (joins (a ∷ [])) (joins as'));
}

module _ (done : List SubscribeData) (s : SubscribeData) (rest : List SubscribeData)
    (real : s.addr ≢ 0) (fresh : NotIn s.addr done) (single : NotIn s.addr rest) where
  gone_act :
      (a : Action) (q : Mq)
      → IsPolite s a
      → Gone done rest q
      → Gone done rest (act a q) × Adds (joins (a ∷ [])) q (act a q)
  unfolding act subscribe unsubscribe joins
  gone_act (subscribes true moved t) q p g = ground arith
  gone_act (subscribes false moved t) q p g = ground (arith, append-nil q.new_subscribers)
  gone_act (unsubscribes accepted a) q p g = ground (
    arith,
    append-nil q.new_subscribers,
    find-eq-none s.addr (done ++ rest) (NotIn-append s.addr done rest fresh single),
  )

  Present-stays :
      (t : SubscribeData) (accepted moved : Bool) (q : Mq)
      → Present done s rest q
      → Present done s rest (act (subscribes accepted moved t) q)
        × Adds (joins (subscribes accepted moved t ∷ [])) q (act (subscribes accepted moved t) q)
  unfolding act subscribe joins
  Present-stays t true moved q g = ground arith
  Present-stays t false moved q g = ground (arith, append-nil q.new_subscribers)

  present_leaves :
      (accepted : Bool) (q : Mq)
      → Present done s rest q
      → Gone done rest (act (unsubscribes accepted s.addr) q)
        × Adds [] q (act (unsubscribes accepted s.addr) q)
  unfolding act unsubscribe
  present_leaves accepted q g = ground (
    arith,
    append-nil q.new_subscribers,
    find-middle done s rest fresh,
    erase_at-middle done s rest,
  )

  leave :
      (accepted : Bool) (a : ℕ) (q : Mq)
      → a ≡ s.addr
      → Present done s rest q
      → Gone done rest (act (unsubscribes accepted a) q)
        × Adds (joins (unsubscribes accepted a ∷ [])) q (act (unsubscribes accepted a) q)
  unfolding joins
  leave accepted a q e g = rw e (present_leaves accepted q g)

  gone_all :
      (as' : List Action) (q : Mq)
      → All (IsPolite s) as'
      → Gone done rest q
      → Gone done rest (act_all as' q) × Adds (joins as') q (act_all as' q)
  unfolding act_all joins
  gone_all [] q p g = (g, record { told = refl; added = sym (append-nil q.new_subscribers) })
  gone_all (a ∷ as') q p g =
      let (g', d) = gone_act a q p.0 g in
      let (g'', d') = gone_all as' (act a q) p.1 g' in (g'', Adds-cons a as' d d')

  pub Present-All :
      (as' : List Action) (q : Mq)
      → All (IsPolite s) as'
      → Present done s rest q
      → (((leaves as' ≡ false) × Present done s rest (act_all as' q))
          ⊎ ((leaves as' ≡ true) × Gone done rest (act_all as' q)))
        × Adds (joins as') q (act_all as' q)
  unfolding act_all joins leaves
  Present-All [] q p g =
      (inl (refl, g), record { told = refl; added = sym (append-nil q.new_subscribers) })
  Present-All (subscribes accepted moved t ∷ as') q p g =
      let (g', d) = Present-stays t accepted moved q g in
      let (g'', d') = Present-All as' (act (subscribes accepted moved t) q) p.1 g' in
      (g'', Adds-cons (subscribes accepted moved t) as' d d')
  Present-All (unsubscribes accepted a ∷ as') q p g =
      let (g', d) = leave accepted a q p.0 g in
      let (g'', d') = gone_all as' (act (unsubscribes accepted a) q) p.1 g' in
      (inr (refl, g''), Adds-cons (unsubscribes accepted a) as' d d')
