-- ===== src/Impl/Sync/Left.antt =====
-- src/AITTImpl.cc: the client that `PublishWithReplySync` leaves, by how it ended, and what its
-- request and its `Unsubscribe` do to the subscription.
use aitt.Base.{
  map, insert, erase, lookup, none, number_key, lookup-insert, erase-insert, if◌then◌else◌,
  Bool-cases, Option, ℕ, ◌≡◌, ◌≢◌, ◌∙◌, ◌⊎◌, inl, inr, refl, ap, Bool, List, [], ◌∷◌, ◌++◌, All,
  some, Text, arith,
}
use aitt.Types.{mqtt_err, Error, Result, ok, err}
use aitt.Flex.{Flexbuffers, text}
use aitt.MqDiscovery
use aitt.MqDiscovery.{MqDiscovery, topic_items}
use aitt.Msg.{AittMsg}
use aitt.Loop.{Loop}
use aitt.Impl.{
  Transport, SubscribeInfo, Client, subscribe_mq, unsubscribe, release, find_info, erase_info,
}
use aitt.Impl.Laws.{find_info-append}
use aitt.Impl.Sync.{
  Happens, Sync, SyncEnd, answered, timed_out, waits, not_supported, info_of, asking, requested,
}
use aitt.Impl.Sync.Steps.{outcome, heard}

abbrev cases_of :
    {A : Type 0} → (r : Result A) → ((x : A) × (r ≡ ok x)) ⊎ ((e : Error) × (r ≡ err e))
cases_of (ok x) = inl (x, refl)
cases_of (err e) = inr (e, refl)

abbrev option_cases : (o : Option Text) → (o ≡ none) ⊎ ((t : Text) × (o ≡ some t))
option_cases none = inl refl
option_cases (some t) = inr (t, refl)

abbrev lookup_cases :
    (h : ℕ)
    → (table : List (ℕ × Text)) → (lookup h table ≡ none) ⊎ ((t : Text) × (lookup h table ≡ some t))
lookup_cases h table = option_cases (lookup h table)

abbrev announcement : Flexbuffers → List (ℕ × Text) → Text
announcement flex table = flex.build_vector (map (λ e. text e.1) table)

topic_items-map : (table : List (ℕ × Text)) → topic_items table ≡ map (λ e. text e.1) table
topic_items-map [] = refl
topic_items-map ((h, t) ∷ table) = ap (λ is. text t ∷ is) (topic_items-map table)

-- What is announced with a new subscription, and without it again.
abbrev pub announced_with : Flexbuffers → ℕ → Text → MqDiscovery → MqDiscovery
announced_with flex h topic d =
    let table = insert h topic d.my_subscribe_table in
    record d { my_subscribe_table = table; announced = announcement flex table ∷ d.announced }

abbrev pub announced_without : Flexbuffers → ℕ → Text → MqDiscovery → MqDiscovery
announced_without flex h topic d = record d {
  announced = announcement flex d.my_subscribe_table ∷ (announced_with flex h topic d).announced;
}

module _ {M T : Type 0} (flex : Flexbuffers) (published : MqDiscovery → Bool)
    (mqtt_ops : Transport M) where
  -- The subscription `h` is taken from the broker, is announced as gone, and leaves the list. `c` is
  -- the client before the request. An exception on the way leaves the rest undone.
  unfoldable pub taken_away : ℕ → Text → (c : Client M T) → Client M T → Client M T
  taken_away h reply c c1 =
      let u = mqtt_ops.unsubscribe h c1.mq in
      let d = announced_without flex h reply c.mq_discovery in
      elim u.1 [
        | err e ↦ record c1 { mq = u.0 }
        | ok x ↦
            if published c1.mq_discovery
            then record c1 { mq = u.0; mq_discovery = d; subscribed_list = c.subscribed_list }
            else record c1 { mq = u.0; mq_discovery = d }
      ]

  -- The client that is left, by how the call ended.
  unfoldable pub left : SyncEnd → ℕ → Text → (c : Client M T) → Client M T → Client M T
  unfolding taken_away
  left answered h reply c c1 = taken_away h reply c c1
  left timed_out h reply c c1 = c1
  left waits h reply c c1 = c1
  left not_supported h reply c c1 = c1

  -- What is there of a subscription `h` to the replies in the client `c1`, that `c` had not.
  unfoldable pub IsListed : (a h : ℕ) → Text → (c c1 : Client M T) → Type 0
  IsListed a h reply c c1 =
      ((mqtt_ops.subscribe reply c.mq).1 ≡ ok h)
      × (c1.mq_discovery ≡ announced_with flex h reply c.mq_discovery)
      × (c1.subscribed_list ≡ c.subscribed_list ++ info_of a h ∷ [])

  -- How the call ends, by what its request gave: `c` is the client before.
  unfoldable pub Ends :
      (a first : ℕ)
      → List Happens
      → (reply : Text) → (c : Client M T) → Client M T × Result (Sync M T)
      → Client M T × Result (List AittMsg × SyncEnd)
      → Type 0
  unfolding IsListed
  Ends a first vs reply c (c1, err e) r = r ≡ (c1, err e)
  Ends a first vs reply c (c1, ok s) r =
      (h : ℕ) × IsListed a h reply c c1
      × (r ≡ (left (outcome first vs) h reply c c1, ok (heard a first vs, outcome first vs)))

  -- What a request that was published has left.
  unfoldable pub Listed : ℕ → Text → Client M T → Client M T × Result (Sync M T) → Type 0
  Listed a reply c (c1, err e) = Unit
  Listed a reply c (c1, ok s) =
      (h : ℕ) × IsListed a h reply c c1 × (lookup h c.mq_discovery.my_subscribe_table ≡ none)

module _ {M T : Type 0} (flex : Flexbuffers) (published : MqDiscovery → Bool)
    (mqtt_ops : Transport M) (tcp_ops : Transport T) (created : Loop → Bool) where
  asking-Listed :
      (a t k h : ℕ) (reply : Text) (c c1 : Client M T) (r : Result (Unit {0}))
      → IsListed flex published mqtt_ops a h reply c c1
      → lookup h c.mq_discovery.my_subscribe_table ≡ none
      → Listed flex published mqtt_ops a reply c
          (asking flex published mqtt_ops tcp_ops created t k (c1, r))
  unfolding Listed
  asking-Listed a t k h reply c c1 (err e) l n = tt
  asking-Listed a t k h reply c c1 (ok u) l n = (h, l, n)

  -- What `SubscribeMQ` has done when it returned `h`, in a client with `m`, `d` and `is`.
  abbrev Subscribed : Text → M → MqDiscovery → List SubscribeInfo → Client M T → Result ℕ → Type 0
  Subscribed reply m d is c1 (err e) = Unit
  Subscribed reply m d is c1 (ok h) =
      ((mqtt_ops.subscribe reply m).1 ≡ ok h)
      × (c1.mq_discovery ≡ announced_with flex h reply d)
      × (lookup h d.my_subscribe_table ≡ none)
      × (c1.subscribed_list ≡ is)

  pub requested-Listed :
      (a t k : ℕ) (topic payload correlation reply : Text) (c c1 : Client M T) (r : Result ℕ)
      → Subscribed reply c.mq c.mq_discovery c.subscribed_list c1 r
      → Listed flex published mqtt_ops a reply c (
          requested flex published mqtt_ops tcp_ops created a t k topic payload correlation reply
            (c1, r))
  unfolding Listed Subscribed IsListed
  requested-Listed a t k topic payload correlation reply c c1 (err e) l = tt
  requested-Listed a t k topic payload correlation reply c c1 (ok h) (g, d, n, l) =
      let c' = record c1 { subscribed_list = c1.subscribed_list ++ info_of a h ∷ [] } in
      let (q, r) = mqtt_ops.publish_with_reply topic payload reply correlation c'.mq in
      asking-Listed a t k h reply c (record c' { mq = q }) r
        (g, d, ap (λ is. is ++ info_of a h ∷ []) l) n

  discovery-subscribed :
      (h : ℕ) (topic : Text) (d : MqDiscovery) (b : Bool)
      → (MqDiscovery.subscribe flex b h topic d).1 ≡ ok tt
      → (lookup h d.my_subscribe_table ≡ none)
        × ((MqDiscovery.subscribe flex b h topic d).0 ≡ announced_with flex h topic d)
  unfolding MqDiscovery.subscribe MqDiscovery.update_discovery_msg
  discovery-subscribed h topic d b e =
      let table = insert h topic d.my_subscribe_table in
      let m = topic_items-map table in
      elim (lookup_cases h d.my_subscribe_table) [
        | inl n ↦ (
          n,
          rw (MqDiscovery.subscribe, n)
              (ap
                (λ is. record d {
                  my_subscribe_table = table;
                  announced = flex.build_vector is ∷ d.announced;
                })
                m),
        )
        | inr (t, n) ↦ absurd (ground arith)
      ]

  -- After the answer of the broker.
  announced-Subscribed :
      (reply : Text) (h : ℕ) (c : Client M T) (m : M) (d : MqDiscovery × Result (Unit {0}))
      → (mqtt_ops.subscribe reply c.mq).1 ≡ ok h
      → (d.1 ≡ ok tt
          → (lookup h c.mq_discovery.my_subscribe_table ≡ none)
            × (d.0 ≡ announced_with flex h reply c.mq_discovery))
      → Subscribed reply c.mq c.mq_discovery c.subscribed_list
          (record c { mq = m; mq_discovery = d.0 })
          (elim d.1 as (λ x. Result ℕ) [ ok u ↦ ok h | err e ↦ err e ])
  unfolding Subscribed
  announced-Subscribed reply h c m (d, ok u) g f = (g, (f refl).1, (f refl).0, refl)
  announced-Subscribed reply h c m (d, err e) g f = tt

  pub subscribe_mq-Subscribed :
      (reply : Text) (c : Client M T)
      → let r = subscribe_mq flex published mqtt_ops tcp_ops reply c in
        Subscribed reply c.mq c.mq_discovery c.subscribed_list r.0 r.1
  unfolding subscribe_mq Subscribed
  subscribe_mq-Subscribed reply c = elim (cases_of (mqtt_ops.subscribe reply c.mq).1) [
    | inl (h, q) ↦
        let b = published c.mq_discovery in
        rw q (
          announced-Subscribed reply h c (mqtt_ops.subscribe reply c.mq).0
            (MqDiscovery.subscribe flex b h reply c.mq_discovery) q
            (discovery-subscribed h reply c.mq_discovery b))
    | inr (y, q) ↦ rw q tt
  ]

  discovery-unsubscribed :
      (h : ℕ) (topic : Text) (d d1 : MqDiscovery) (b : Bool)
      → lookup h d.my_subscribe_table ≡ none
      → d1 ≡ announced_with flex h topic d
      → MqDiscovery.unsubscribe flex b h d1
        ≡ (announced_without flex h topic d, if b then ok tt else err mqtt_err)
  unfolding MqDiscovery.unsubscribe MqDiscovery.update_discovery_msg
  discovery-unsubscribed h topic d d1 b n e =
      let table = insert h topic d.my_subscribe_table in
      let found : lookup h table ≡ some topic =
        ground (arith, lookup-insert h h topic d.my_subscribe_table) in
      let back : erase h table ≡ d.my_subscribe_table =
        erase-insert h topic d.my_subscribe_table n in
      let m = topic_items-map d.my_subscribe_table in
      ap (MqDiscovery.unsubscribe flex b h) e ∙ rw (MqDiscovery.unsubscribe, found, back, m) refl

  pub unsubscribe-taken_away :
      (a h : ℕ) (reply : Text) (c c1 : Client M T)
      → All (λ i. i.addr ≢ a) c.subscribed_list
      → IsListed flex published mqtt_ops a h reply c c1
      → lookup h c.mq_discovery.my_subscribe_table ≡ none
      → (unsubscribe flex published mqtt_ops tcp_ops a c1).0
        ≡ taken_away flex published mqtt_ops h reply c c1
  unfolding unsubscribe taken_away release IsListed
  unsubscribe-taken_away a h reply c c1 n (g, d, e) none_before =
      let is = c.subscribed_list in
      let f = find_info-append (info_of a h) is n in
      let f0 : find_info a c1.subscribed_list ≡ some (info_of a h) = ap (find_info a) e ∙ f.0 in
      let f1 : erase_info a c1.subscribed_list ≡ is = ap (erase_info a) e ∙ f.1 in
      let b = published c1.mq_discovery in
      let v = discovery-unsubscribed h reply c.mq_discovery c1.mq_discovery b none_before d in
      elim (cases_of (mqtt_ops.unsubscribe h c1.mq).1) [
        | inl (x, q) ↦ elim (Bool-cases b) [ inl p ↦ ground arith | inr p ↦ ground arith ]
        | inr (y, q) ↦ ground arith
      ]
