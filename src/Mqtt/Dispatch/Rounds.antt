-- ===== src/Mqtt/Dispatch/Rounds.antt =====
-- src/MosquittoMQ.cc: one round of the loop of `MessageCB` when the callbacks are polite.
use aitt.Base.{
  ◌≡◌, sym, ap, ◌∙◌, ◌≢◌, inl, inr, ◌⊎◌, Bool, true, false, List, [], ◌∷◌, ◌++◌, append-nil,
  append_assoc, Option, some, length, length-append, All, Text, Bool-cases, arith,
}
use aitt.Msg.{AittMsg}
use aitt.Mqtt.Message.{read_message}
use aitt.Mqtt.Subscribers.{SubscribeData, Delivery, Mq, Action, act_all}
use aitt.Mqtt.Subscribers.Find.{NotIn, NotIn-append}
use aitt.Mqtt.Dispatch.{Incoming, advance, visit}
use aitt.Mqtt.Dispatch.Polite.{IsPolite, leaves, joins, Present, Gone, Adds, Present-All}
use aitt.Mqtt.Dispatch.Spec.{Distinct, hits, delivery, deliveries, remaining, joined}

-- The head of the loop, with `done` before the iterator.
pub record At (done rest : List SubscribeData) (q : Mq) : Type 0 where
  pub held : q.subscribers ≡ done ++ rest
  pub here : q.iterator ≡ some (length done)
  pub running : q.iterating ≡ true
  pub untouched : q.updated ≡ false

-- What a part of the dispatch tells, and which subscribers come during it.
pub record Round (told : List Delivery) (came : List SubscribeData) (q q' : Mq) : Type 0 where
  pub heard : q'.delivered ≡ q.delivered ++ told
  pub added : q'.new_subscribers ≡ q.new_subscribers ++ came

pub Round-trans :
    {told told' : List Delivery} {came came' : List SubscribeData} {q q' q'' : Mq}
    → Round told came q q'
    → Round told' came' q' q''
    → Round (told ++ told') (came ++ came') q q''
Round-trans {told} {told'} {came} {came'} {q} r r' = record {
  heard = r'.heard ∙ ap (λ ds. ds ++ told') r.heard ∙ append_assoc q.delivered told told';
  added = r'.added ∙ ap (λ ss. ss ++ came') r.added ∙ append_assoc q.new_subscribers came came';
}

advance-At :
    (done : List SubscribeData) (s : SubscribeData) (rest : List SubscribeData) (q : Mq)
    → Present done s rest q
    → At (done ++ s ∷ []) rest (advance q)
unfolding advance
advance-At done s rest q g =
    ground (arith, append_assoc done (s ∷ []) rest, length-append done (s ∷ []))

advance_gone-At :
    (done rest : List SubscribeData) (q : Mq) → Gone done rest q → At done rest (advance q)
unfolding advance
advance_gone-At done rest q g = ground arith

advance_keeps :
    (q : Mq)
    → ((advance q).delivered ≡ q.delivered) × ((advance q).new_subscribers ≡ q.new_subscribers)
unfolding advance
advance_keeps q = ground arith

-- No address of `rest` stands in `done`.
abbrev pub Apart : List SubscribeData → List SubscribeData → Type 0
Apart done = All (λ s. NotIn s.addr done)

Apart-extend :
    (done : List SubscribeData) (s : SubscribeData) (rest : List SubscribeData)
    → NotIn s.addr rest
    → Apart done rest
    → Apart (done ++ s ∷ []) rest
Apart-extend done s [] n h = tt
Apart-extend done s (x ∷ rest) n h = (
  NotIn-append x.addr done (s ∷ []) h.0 ((λ e. n.0 (sym e)), tt),
  Apart-extend done s rest n.1 h.1,
)

pub Apart-nil : (rest : List SubscribeData) → Apart [] rest
Apart-nil [] = tt
Apart-nil (s ∷ rest) = (tt, Apart-nil rest)

module _ (topic_matches_sub : Text → Text → Option Bool) (asks : SubscribeData → List Action)
    (m : Incoming) (msg : AittMsg) where
  module _ (readable : read_message m.topic m.props ≡ some msg) where
    invoked : SubscribeData → Mq → Mq
    invoked s q = act_all (asks s) (record q { delivered = q.delivered ++ delivery msg m s ∷ [] })

    visit_miss :
        (s : SubscribeData) (q : Mq)
        → s.addr ≢ 0
        → hits topic_matches_sub m s ≡ false
        → visit topic_matches_sub asks s m q ≡ some (advance q)
    unfolding visit
    visit_miss s q real e = ground arith

    visit_hit :
        (s : SubscribeData) (q : Mq)
        → s.addr ≢ 0
        → hits topic_matches_sub m s ≡ true
        → visit topic_matches_sub asks s m q ≡ some (advance (invoked s q))
    unfolding visit invoked
    visit_hit s q real e = ground (arith, readable)

    -- One round: where the iterator stands after it, and what it tells.
    pub record Step (done : List SubscribeData) (s : SubscribeData) (rest : List SubscribeData)
        (q q' : Mq) : Type 0 where
      pub kept : List SubscribeData
      pub stays :
          (ss : List SubscribeData)
          → remaining topic_matches_sub asks m msg (s ∷ ss)
            ≡ kept ++ remaining topic_matches_sub asks m msg ss
      pub apart : Apart (done ++ kept) rest
      pub seen : visit topic_matches_sub asks s m q ≡ some q'
      pub head : At (done ++ kept) rest q'
      pub round :
          Round
            (deliveries topic_matches_sub asks m msg (s ∷ []))
            (joined topic_matches_sub asks m msg (s ∷ []))
            q
            q'

    module _ (done : List SubscribeData) (s : SubscribeData) (rest : List SubscribeData) (q : Mq)
        (d : Distinct (s ∷ rest)) (a : Apart done (s ∷ rest)) (polite : All (IsPolite s) (asks s))
        (g : At done (s ∷ rest) q) where
      told_q : Mq
      told_q = record q { delivered = q.delivered ++ delivery msg m s ∷ [] }

      step_miss : hits topic_matches_sub m s ≡ false → Step done s rest q (advance q)
      unfolding remaining deliveries joined
      step_miss e = record {
        kept = s ∷ [];
        stays = λ ss. ground arith;
        apart = Apart-extend done s rest d.1 a.1;
        seen = visit_miss s q d.0 e;
        head =
            advance-At done s rest q (record {
              held = g.held;
              here = g.here;
              running = g.running;
              untouched = g.untouched;
            });
        round = record {
          heard = ground (arith, advance_keeps q, append-nil q.delivered);
          added = ground (arith, advance_keeps q, append-nil q.new_subscribers);
        };
      }

      hit-Round :
          hits topic_matches_sub m s ≡ true
          → Adds (joins (asks s)) told_q (invoked s q)
          → Round
              (deliveries topic_matches_sub asks m msg (s ∷ []))
              (joined topic_matches_sub asks m msg (s ∷ []))
              q
              (advance (invoked s q))
      unfolding deliveries joined told_q
      hit-Round e n = record {
        heard = ground (arith, advance_keeps (invoked s q));
        added = ground (arith, advance_keeps (invoked s q), append-nil (joins (asks s)));
      }

      step_hit : hits topic_matches_sub m s ≡ true → Step done s rest q (advance (invoked s q))
      unfolding remaining invoked told_q
      step_hit e = elim after.0 [
        | inl (stay, p) ↦ record {
          kept = s ∷ [];
          stays = λ ss. ground arith;
          apart = Apart-extend done s rest d.1 a.1;
          seen = visit_hit s q d.0 e;
          head = advance-At done s rest (invoked s q) p;
          round = hit-Round e after.1;
        }
        | inr (leave, p) ↦ record {
          kept = [];
          stays = λ ss. ground arith;
          apart = rw (append-nil done) a.1;
          seen = visit_hit s q d.0 e;
          head = rw (append-nil done) (advance_gone-At done rest (invoked s q) p);
          round = hit-Round e after.1;
        }
      ]
        where
          after :
              (((leaves (asks s) ≡ false) × Present done s rest (invoked s q))
                ⊎ ((leaves (asks s) ≡ true) × Gone done rest (invoked s q)))
              × Adds (joins (asks s)) told_q (invoked s q)
          after = Present-All done s rest d.0 a.0 d.1 (asks s) told_q polite (record {
            held = g.held;
            here = g.here;
            running = g.running;
            untouched = g.untouched;
          })

      pub step : (q' : Mq) × Step done s rest q q'
      step = elim (Bool-cases (hits topic_matches_sub m s)) [
        | inl e ↦ (advance (invoked s q), step_hit e)
        | inr e ↦ (advance q, step_miss e)
      ]
