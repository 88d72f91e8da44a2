-- ===== src/Impl/Publishing.antt =====
-- src/AITTImpl.cc: which transports `Publish` reaches, and the reply topics of `PublishWithReply`.
use aitt.Base.{
  Bool, ℕ, suc, ◌+◌, ◌%◌, ◌≤◌, ◌<◌, ◌≡◌, ◌≢◌, ◌∙◌, subst, refl, ap, sym, true, List, [], ◌∷◌, ◌++◌,
  if◌then◌else◌, ltb, length, Text, arith, Bool-cases, inl, inr, ◌⊎◌, digits_of-injective,
  to_string, All, false, drop, drop-length-append, digits_of,
}
use aitt.Types.{
  Error, invalid_arg, AittProtocol, unknown, mqtt, tcp, tcp_secure, Result, ok, err, message_max,
  response_postfix,
}
use aitt.Flex.{Flexbuffers}
use aitt.MqDiscovery.{MqDiscovery}
use aitt.Impl.{
  Transport, Client, has_mqtt, has_tcp, has_secure, publish, publish_with_reply, reply_topic,
  subscribe, subscribe_by, subscribe_mq, asked,
}
use aitt.MqDiscovery

module _ {M T : Type 0} (flex : Flexbuffers) (published : MqDiscovery → Bool)
    (mqtt_ops : Transport M) (tcp_ops : Transport T) where
  -- When `Publish` returns, the payload was not too long, the client was running, and the message
  -- was handed exactly to the transports whose bits are set, once to each. Nothing else changes.
  pub publish-exact :
      (topic payload : Text) (protocols : ℕ) (c : Client M T)
      → (publish flex published mqtt_ops tcp_ops topic payload protocols c).1 ≡ ok tt
      → (length payload ≤ message_max)
        × (c.running ≡ true)
        × (protocols ≤ 7)
        × ((publish flex published mqtt_ops tcp_ops topic payload protocols c).0 ≡ record c {
          mq = if has_mqtt protocols then (mqtt_ops.publish topic payload c.mq).0 else c.mq;
          tcp_module =
              if has_tcp protocols
              then (tcp_ops.publish topic payload c.tcp_module).0
              else c.tcp_module;
          secure_module =
              if has_secure protocols
              then (tcp_ops.publish topic payload c.secure_module).0
              else c.secure_module;
        })
  unfolding publish
  publish-exact topic payload protocols c e = ground arith

-- One call of `PublishWithReply`; `a` is the address of its `SubscribeInfo`.
pub record Request : Type 0 where
  pub a : ℕ
  pub topic : Text
  pub payload : Text
  pub protocol : AittProtocol
  pub correlation : Text

-- The calls that are not refused for their size.
unfoldable pub accepted : List Request → ℕ
accepted [] = 0
accepted (q ∷ qs) = if ltb message_max (length q.payload) then accepted qs else suc (accepted qs)

append-injective : (xs ys zs : Text) → xs ++ ys ≡ xs ++ zs → ys ≡ zs
append-injective xs ys zs e =
    sym (drop-length-append xs ys) ∙ ap (drop (length xs)) e ∙ drop-length-append xs zs

reply_topic-same : (topic : Text) (m n : ℕ) → reply_topic topic m ≡ reply_topic topic n → m ≡ n
unfolding reply_topic to_string
reply_topic-same topic m n e =
    digits_of-injective m n
      (append-injective (topic ++ response_postfix) (digits_of m) (digits_of n) e)

abbrev cases_of : (r : Result ℕ) → ((x : ℕ) × (r ≡ ok x)) ⊎ ((e : Error) × (r ≡ err e))
cases_of (ok x) = inl (x, refl)
cases_of (err e) = inr (e, refl)

abbrev cases_of_unit : (r : Result (Unit {0})) → (r ≡ ok tt) ⊎ ((e : Error) × (r ≡ err e))
cases_of_unit (ok u) = inl refl
cases_of_unit (err e) = inr (e, refl)

module _ {M T : Type 0} (flex : Flexbuffers) (published : MqDiscovery → Bool)
    (mqtt_ops : Transport M) (tcp_ops : Transport T) where
  unfoldable pub after : List Request → Client M T → Client M T
  after [] c = c
  after (q ∷ qs) c =
      after qs
        (publish_with_reply flex published mqtt_ops tcp_ops q.a q.topic q.payload q.protocol
          q.correlation c).0

  subscribe-reply_id :
      (p : AittProtocol) (a : ℕ) (topic : Text) (c : Client M T)
      → (subscribe flex published mqtt_ops tcp_ops p a topic c).0.reply_id ≡ c.reply_id
  unfolding subscribe subscribe_by subscribe_mq
  subscribe-reply_id mqtt a topic c = elim (cases_of (mqtt_ops.subscribe topic c.mq).1) [
    | inl (h, e) ↦
        elim (cases_of_unit
          (MqDiscovery.subscribe flex (published c.mq_discovery) h topic c.mq_discovery).1) [
            | inl k ↦ ground arith
            | inr (x, k) ↦ ground arith
          ]
    | inr (x, e) ↦ ground arith
  ]
  subscribe-reply_id tcp a topic c = elim (cases_of (tcp_ops.subscribe topic c.tcp_module).1) [
    | inl (h, e) ↦ ground arith
    | inr (x, e) ↦ ground arith
  ]
  subscribe-reply_id tcp_secure a topic c =
      elim (cases_of (tcp_ops.subscribe topic c.secure_module).1) [
        | inl (h, e) ↦ ground arith
        | inr (x, e) ↦ ground arith
      ]
  subscribe-reply_id unknown a topic c = refl

  -- The second half of `PublishWithReply` does not count.
  asked-same :
      (a : ℕ) (topic payload reply correlation : Text) (p : AittProtocol) (c : Client M T)
      (r : Result ℕ)
      → (asked flex published mqtt_ops tcp_ops a topic payload reply correlation p
          (c, r)).0.reply_id
        ≡ c.reply_id
  asked-same a topic payload reply correlation p c (err e) = refl
  asked-same a topic payload reply correlation mqtt c (ok h) = refl
  asked-same a topic payload reply correlation tcp c (ok h) = refl
  asked-same a topic payload reply correlation tcp_secure c (ok h) = refl
  asked-same a topic payload reply correlation unknown c (ok h) = refl

  asked-reply_id :
      (p : AittProtocol) (a : ℕ) (topic payload correlation : Text) (c : Client M T)
      → (publish_with_reply flex published mqtt_ops tcp_ops a topic payload p correlation
          c).0.reply_id
        ≡ (if ltb message_max (length payload) then c.reply_id else suc c.reply_id % 65536)
  unfolding publish_with_reply
  asked-reply_id p a topic payload correlation c =
      let reply = reply_topic topic c.reply_id in
      let r =
        subscribe flex published mqtt_ops tcp_ops p a reply
          (record c { reply_id = suc c.reply_id % 65536 }) in
      let s = subscribe-reply_id p a reply (record c { reply_id = suc c.reply_id % 65536 }) in
      let t = asked-same a topic payload reply correlation p r.0 r.1 in
      elim (Bool-cases (ltb message_max (length payload))) [
        | inl e ↦ ground arith
        | inr e ↦ rw e (t ∙ s)
      ]

  after-reply_id :
      (qs : List Request) (c : Client M T)
      → c.reply_id < 65536
      → (after qs c).reply_id ≡ (c.reply_id + accepted qs) % 65536
  unfolding after accepted
  after-reply_id [] c h = omega arith
  after-reply_id (q ∷ qs) c h =
      let c1 =
        (publish_with_reply flex published mqtt_ops tcp_ops q.a q.topic q.payload q.protocol
          q.correlation c).0 in
      let e = asked-reply_id q.protocol q.a q.topic q.payload q.correlation c in
      let small : c1.reply_id < 65536 = ground arith in
      let ih = after-reply_id qs c1 small in ground arith

-- A transport that also writes down the topics that replies are expected at, the newest first.
abbrev pub Noted : Type 0 → Type 0
Noted S = S × List Text

abbrev pub noting : {S : Type 0} → Transport S → Transport (Noted S)
noting ops = record {
  publish = λ topic payload (s, log). let r = ops.publish topic payload s in ((r.0, log), r.1);
  publish_with_reply = λ topic payload reply correlation (s, log).
      let r = ops.publish_with_reply topic payload reply correlation s in ((r.0, reply ∷ log), r.1);
  subscribe = λ topic (s, log). let r = ops.subscribe topic s in ((r.0, topic ∷ log), r.1);
  unsubscribe = λ handle (s, log). let r = ops.unsubscribe handle s in ((r.0, log), r.1);
  count_subscriber = λ topic (s, log). ops.count_subscriber topic s;
}

module _ {M T : Type 0} (flex : Flexbuffers) (published : MqDiscovery → Bool)
    (mqtt_ops : Transport M) (tcp_ops : Transport T) where
  -- The same client, with nothing written down.
  abbrev pub unwritten : Client (Noted M) (Noted T) → Client (Noted M) (Noted T)
  unwritten c = record c {
    mq = (c.mq.0, []);
    tcp_module = (c.tcp_module.0, []);
    secure_module = (c.secure_module.0, []);
  }

  abbrev pub written : Client (Noted M) (Noted T) → List Text
  written c = c.mq.1 ++ (c.tcp_module.1 ++ c.secure_module.1)

  abbrev pub asks : Request → Client (Noted M) (Noted T) → Client (Noted M) (Noted T)
  asks q c =
      (publish_with_reply flex published (noting mqtt_ops) (noting tcp_ops) q.a q.topic q.payload
        q.protocol q.correlation c).0

  -- The topics that one request subscribes to and gives to the receiver for the replies.
  unfoldable pub topics_used : Request → Client (Noted M) (Noted T) → List Text
  topics_used q c = written (asks q (unwritten c))

  -- One topic, once or twice.
  OneOf : Text → List Text → Type 0
  OneOf t ts = (ts ≡ t ∷ []) ⊎ (ts ≡ t ∷ t ∷ [])

  -- The request after its subscription.
  asked_after :
      (q : Request) (c : Client (Noted M) (Noted T))
      → ltb message_max (length q.payload) ≡ false
      → let t = reply_topic q.topic c.reply_id in
        topics_used q c
        ≡ written
            (asked flex published
              (noting mqtt_ops)
              (noting tcp_ops)
              q.a
              q.topic
              q.payload
              t
              q.correlation
              q.protocol
              (subscribe flex published
                (noting mqtt_ops)
                (noting tcp_ops)
                q.protocol
                q.a
                t
                (record (unwritten c) { reply_id = suc c.reply_id % 65536 }))).0
  unfolding topics_used publish_with_reply
  asked_after q c h =
      let t = reply_topic q.topic c.reply_id in
      let next =
        asked flex published (noting mqtt_ops) (noting tcp_ops) q.a q.topic q.payload t
          q.correlation q.protocol
          (subscribe flex published (noting mqtt_ops) (noting tcp_ops) q.protocol q.a t
            (record (unwritten c) { reply_id = suc c.reply_id % 65536 })) in
      ap (λ b. written (if b then (unwritten c, err invalid_arg) else next).0) h

  used_by :
      (p : AittProtocol) (a : ℕ) (t topic payload correlation : Text)
      (c : Client (Noted M) (Noted T))
      → p ≢ unknown
      → c.mq.1 ≡ []
      → c.tcp_module.1 ≡ []
      → c.secure_module.1 ≡ []
      → OneOf t (
          written
            (asked flex published
              (noting mqtt_ops)
              (noting tcp_ops)
              a
              topic
              payload
              t
              correlation
              p
              (subscribe flex published (noting mqtt_ops) (noting tcp_ops) p a t c)).0)
  unfolding OneOf subscribe subscribe_by subscribe_mq
  used_by mqtt a t topic payload correlation c k x y z =
      elim (cases_of (mqtt_ops.subscribe t c.mq.0).1) [
        | inl (h, e) ↦
            elim (cases_of_unit
              (MqDiscovery.subscribe flex (published c.mq_discovery) h t c.mq_discovery).1) [
                | inl d ↦ inr (ground arith)
                | inr (err', d) ↦ inl (ground arith)
              ]
        | inr (err', e) ↦ inl (ground arith)
      ]
  used_by tcp a t topic payload correlation c k x y z =
      elim (cases_of (tcp_ops.subscribe t c.tcp_module.0).1) [
        | inl (h, e) ↦ inr (rw (e, x, y, z) refl)
        | inr (err', e) ↦ inl (rw (e, x, y, z) refl)
      ]
  used_by tcp_secure a t topic payload correlation c k x y z =
      elim (cases_of (tcp_ops.subscribe t c.secure_module.0).1) [
        | inl (h, e) ↦ inr (ground arith)
        | inr (err', e) ↦ inl (ground arith)
      ]
  used_by unknown a t topic payload correlation c k x y z = absurd (k refl)

  used_one :
      (q : Request) (c : Client (Noted M) (Noted T))
      → q.protocol ≢ unknown
      → ltb message_max (length q.payload) ≡ false
      → OneOf (reply_topic q.topic c.reply_id) (topics_used q c)
  used_one q c k h =
      let t = reply_topic q.topic c.reply_id in
      subst (OneOf t) (sym (asked_after q c h)) (
        used_by q.protocol q.a t q.topic q.payload q.correlation
          (record (unwritten c) { reply_id = suc c.reply_id % 65536 }) k refl refl refl)

  OneOf-full : (t : Text) (ts : List Text) → OneOf t ts → ts ≢ []
  unfolding OneOf
  OneOf-full t [] (inl e) h = absurd (ground arith)
  OneOf-full t [] (inr e) h = absurd (ground arith)
  OneOf-full t (x ∷ ts) o h = absurd (ground arith)

  OneOf-All : (P : Text → Type 0) (t : Text) (ts : List Text) → P t → OneOf t ts → All P ts
  unfolding OneOf
  OneOf-All P t ts p (inl e) = subst (All P) (sym e) (p, tt)
  OneOf-All P t ts p (inr e) = subst (All P) (sym e) (p, (p, tt))

  -- Two requests on one topic, `q` and later `q'`, over known protocols, that are not refused for
  -- their size: both use topics for their replies, with the transports to subscribe and to tell the
  -- receiver, and none that `q` uses is one that `q'` uses. In between other requests were made,
  -- fewer than 65535 of which were not refused for their size, whether they succeeded or not.
  pub reply_topic-differs :
      (q q' : Request) (qs : List Request) (c : Client (Noted M) (Noted T))
      → q'.topic ≡ q.topic
      → q.protocol ≢ unknown
      → q'.protocol ≢ unknown
      → ltb message_max (length q.payload) ≡ false
      → ltb message_max (length q'.payload) ≡ false
      → c.reply_id < 65536
      → accepted qs < 65535
      → let c' = after flex published (noting mqtt_ops) (noting tcp_ops) (q ∷ qs) c in
        (topics_used q c ≢ [])
        × (topics_used q' c' ≢ [])
        × All (λ t. All (λ t'. t ≢ t') (topics_used q' c')) (topics_used q c)
  unfolding accepted
  reply_topic-differs q q' qs c same k k' h h' small few =
      let c' = after flex published (noting mqtt_ops) (noting tcp_ops) (q ∷ qs) c in
      let o = used_one q c k h in
      let o' = used_one q' c' k' h' in
      let n = after-reply_id flex published (noting mqtt_ops) (noting tcp_ops) (q ∷ qs) c small in
      let m : accepted (q ∷ qs) ≡ suc (accepted qs) = rw h refl in
      let differ : reply_topic q.topic c.reply_id ≢ reply_topic q'.topic c'.reply_id = λ e.
        let r =
          reply_topic-same q.topic c.reply_id c'.reply_id
            (e ∙ ap (λ t. reply_topic t c'.reply_id) same) in
        omega (arith, n, m, r) in
      (
        OneOf-full _ (topics_used q c) o,
        OneOf-full _ (topics_used q' c') o',
        OneOf-All (λ t. All (λ t'. t ≢ t') (topics_used q' c')) _ (topics_used q c)
            (OneOf-All (λ t'. reply_topic q.topic c.reply_id ≢ t') _ (topics_used q' c') differ o')
            o,
      )
