-- ===== src/MqDiscovery/Laws.antt =====
-- src/MQDiscoveryHandler.cc: `Subscribe` and `Unsubscribe` of the own subscriptions.
use aitt.Base.{
  if◌then◌else◌, Bool, ℕ, ◌≡◌, refl, List, [], ◌∷◌, none, Text, lookup, insert, erase, number_key,
  arith, lookup-insert,
}
use aitt.Types.{ok, err, mqtt_err}
use aitt.Flex.{Flexbuffers}
use aitt.MqDiscovery.{MqDiscovery, topic_items, subscribe, unsubscribe, update_discovery_msg}

erase_absent {ℓ} : {V : Type ℓ} (k : ℕ) (m : List (ℕ × V)) → lookup k m ≡ none → erase k m ≡ m
unfolding lookup erase
erase_absent k [] e = refl
erase_absent k ((j, w) ∷ m) e = ground (arith, erase_absent k m)

erase-insert {ℓ} :
    {V : Type ℓ} (k : ℕ) (v : V) (m : List (ℕ × V)) → lookup k m ≡ none → erase k (insert k v m) ≡ m
unfolding lookup erase insert
erase-insert k v [] e = ground arith
erase-insert k v ((j, w) ∷ m) e = ground (arith, erase-insert k v m, erase_absent k m)

-- A handle that has no entry: after `Subscribe`, `Unsubscribe` gives back the table that there was,
-- and the table with the entry, then the table without it, have been handed to
-- the discovery, whose second answer is that of `Unsubscribe`.
pub unsubscribe-subscribe_handle :
    (flex : Flexbuffers) (p q : Bool) (handle : ℕ) (topic : Text) (d : MqDiscovery)
    → lookup handle d.my_subscribe_table ≡ none
    → unsubscribe flex q handle (subscribe flex p handle topic d).0 ≡ (
      record d {
        announced =
            flex.build_vector (topic_items d.my_subscribe_table)
            ∷ flex.build_vector (topic_items (insert handle topic d.my_subscribe_table))
            ∷ d.announced;
      },
      if q then ok tt else err mqtt_err,
    )
unfolding subscribe unsubscribe update_discovery_msg
unsubscribe-subscribe_handle flex p q handle topic d e = ground (
  arith,
  erase-insert handle topic d.my_subscribe_table,
  lookup-insert handle handle topic d.my_subscribe_table,
)
