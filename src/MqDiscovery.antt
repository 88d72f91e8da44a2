-- ===== src/MqDiscovery.antt =====
-- src/MQDiscoveryHandler.cc: who subscribes to what over MQTT. Each client announces the topics of
-- its own subscriptions, and counts them together with those that the others announced.
pub mod Laws
pub mod Count
use aitt.Base.{
  ℕ, suc, ◌+◌, Bool, List, [], ◌∷◌, Option, none, some, if◌then◌else◌, Text, codes, text_eq, lookup,
  insert, erase, text_key, number_key,
}
use aitt.Types.{Result, ok, err, already, no_data_err, mqtt_err}
use aitt.Flex.{Item, text, Flexbuffers}
use aitt.Tcp.Peers.{will_leave_network}

-- `announced` records what is handed to `AittDiscovery::UpdateDiscoveryMsg("MQTT", …)`.
pub record MqDiscovery : Type 0 where
  pub id : Text
  pub my_subscribe_table : List (ℕ × Text)
  pub remote_subscribe_table : List (Text × List Text)
  pub announced : List Text

-- The strings of the vector.
abbrev pub topic_items : List (ℕ × Text) → List Item
topic_items [] = []
topic_items ((handle, topic) ∷ table) = text topic ∷ topic_items table

module _ (flex : Flexbuffers) where
  unfoldable pub update_discovery_msg : MqDiscovery → MqDiscovery
  update_discovery_msg d = record d {
    announced = flex.build_vector (topic_items d.my_subscribe_table) ∷ d.announced;
  }

  -- `std::map::insert` does not replace an entry. `published` tells whether
  -- `AittDiscovery::UpdateDiscoveryMsg` returns.
  unfoldable pub subscribe :
      (published : Bool) → ℕ → Text → MqDiscovery → MqDiscovery × Result (Unit {0})
  unfolding update_discovery_msg
  subscribe published handle topic d = elim (lookup handle d.my_subscribe_table) [
    | some t ↦ (d, err already)
    | none ↦ (
      update_discovery_msg
          (record d { my_subscribe_table = insert handle topic d.my_subscribe_table }),
      if published then ok tt else err mqtt_err,
    )
  ]

  unfoldable pub unsubscribe :
      (published : Bool) → ℕ → MqDiscovery → MqDiscovery × Result (Unit {0})
  unfolding update_discovery_msg
  unsubscribe published handle d = elim (lookup handle d.my_subscribe_table) [
    | none ↦ (d, err no_data_err)
    | some t ↦ (
      update_discovery_msg (record d { my_subscribe_table = erase handle d.my_subscribe_table }),
      if published then ok tt else err mqtt_err,
    )
  ]

  unfoldable pub topics_of : List Item → List Text
  topics_of [] = []
  topics_of (item ∷ items) = flex.as_text item ∷ topics_of items

  unfoldable pub discovery_message_callback : Text → Text → Text → MqDiscovery → MqDiscovery
  unfolding topics_of
  discovery_message_callback id status msg d =
      if text_eq id d.id
      then d
      else if text_eq status will_leave_network
      then record d { remote_subscribe_table = erase id d.remote_subscribe_table }
      else record d {
        remote_subscribe_table =
            insert id (topics_of (flex.read_vector msg)) d.remote_subscribe_table;
      }

-- `compare_topic` is `AittDiscovery::CompareTopic`.
module _ (compare_topic : Text → Text → Bool) (topic : Text) where
  unfoldable pub count_mine : List (ℕ × Text) → ℕ
  count_mine [] = 0
  count_mine ((handle, t) ∷ table) = (if compare_topic t topic then 1 else 0) + count_mine table

  unfoldable pub count_topics : List Text → ℕ
  count_topics [] = 0
  count_topics (t ∷ ts) = (if compare_topic t topic then 1 else 0) + count_topics ts

  unfoldable pub count_remote : List (Text × List Text) → ℕ
  unfolding count_topics
  count_remote [] = 0
  count_remote ((id, topics) ∷ table) = count_topics topics + count_remote table

  unfoldable pub count_subscriber : MqDiscovery → ℕ
  unfolding count_mine count_remote
  count_subscriber d = count_mine d.my_subscribe_table + count_remote d.remote_subscribe_table
