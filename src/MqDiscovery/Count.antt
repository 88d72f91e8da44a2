-- ===== src/MqDiscovery/Count.antt =====
-- src/MQDiscoveryHandler.cc: the announcement of one client, as another client counts it.
use aitt.Base.{
  ℕ, ◌+◌, ◌≡◌, ◌≢◌, refl, Bool, List, [], ◌∷◌, Option, none, some, Text, lookup, insert, text_key,
  arith, text_eq, text_eq_iff, text_lt, Bool-cases, inl, inr, IsOrdered, After-lt, After-lookup,
  insert-IsOrdered,
}
use aitt.Flex.{Flexbuffers, IsFlexbuffers}
use aitt.Tcp.Peers.{will_leave_network}
use aitt.MqDiscovery.{
  MqDiscovery, topic_items, topics_of, discovery_message_callback, count_mine, count_topics,
  count_remote, count_subscriber,
}

-- What a client counts for that is not known, or known with its topics.
abbrev pub counted : (Text → Text → Bool) → Text → Option (List Text) → ℕ
counted compare_topic topic none = 0
counted compare_topic topic (some ts) = count_topics compare_topic topic ts

module _ (compare_topic : Text → Text → Bool) (topic : Text) where
  count-insert :
      (k : Text) (ts : List Text) (table : List (Text × List Text))
      → IsOrdered table
      → count_remote compare_topic topic (insert k ts table)
          + counted compare_topic topic (lookup k table)
        ≡ count_remote compare_topic topic table + count_topics compare_topic topic ts
  unfolding count_remote lookup insert IsOrdered
  count-insert k ts [] o = ground arith
  count-insert k ts ((j, us) ∷ table) o =
      let ih = count-insert k ts table o.1 in
      elim (Bool-cases (text_eq j k)) [
        | inl e ↦ ground arith
        | inr e ↦ elim (Bool-cases (text_lt k j)) [
          | inl l ↦
              let n : lookup k table ≡ none = After-lookup k table (After-lt k j table l o.0) in
              ground arith
          | inr l ↦ ground arith
        ]
      ]

  count-topic_items :
      (flex : Flexbuffers)
      → IsFlexbuffers flex
      → (table : List (ℕ × Text))
      → count_topics compare_topic topic (topics_of flex (topic_items table))
        ≡ count_mine compare_topic topic table
  unfolding count_topics topics_of count_mine
  count-topic_items flex f [] = refl
  count-topic_items flex f ((h, t) ∷ table) =
      let e = f.text-text t in let ih = count-topic_items flex f table in rw (e, ih) refl

  -- One client hands its announcement to another one, which has a different id and whose table of
  -- the others is in order: the other one then counts what it counted before, less what it knew of the
  -- client, plus what the client counts of its own subscriptions; and its table is in order again.
  pub count-announced :
      (flex : Flexbuffers) (sender d : MqDiscovery) (id status : Text)
      → IsFlexbuffers flex
      → IsOrdered d.remote_subscribe_table
      → id ≢ d.id
      → status ≢ will_leave_network
      → let msg = flex.build_vector (topic_items sender.my_subscribe_table) in
        let d' = discovery_message_callback flex id status msg d in
        (count_subscriber compare_topic topic d'
            + counted compare_topic topic (lookup id d.remote_subscribe_table)
          ≡ count_subscriber compare_topic topic d
            + count_mine compare_topic topic sender.my_subscribe_table)
        × IsOrdered d'.remote_subscribe_table
  unfolding discovery_message_callback count_subscriber
  count-announced flex sender d id status f o n w =
      let table = sender.my_subscribe_table in
      let v = f.vector-vector (topic_items table) in
      let c = count-topic_items flex f table in
      let ts = topics_of flex (flex.read_vector (flex.build_vector (topic_items table))) in
      let i = count-insert id ts d.remote_subscribe_table o in
      let k = insert-IsOrdered id ts d.remote_subscribe_table o in
      ground (arith, text_eq_iff id d.id, text_eq_iff status will_leave_network)
