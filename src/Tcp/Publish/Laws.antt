-- ===== src/Tcp/Publish/Laws.antt =====
-- modules/tcp/Module.cc: whom `PublishFull` reaches.
use aitt.Base.{
  ◌≡◌, refl, ap, Bool, true, List, [], ◌∷◌, ◌++◌, none, some, if◌then◌else◌, Text, Bool-cases,
  Option-cases, inl, inr, arith, ◌&&◌, lookup, text_key,
}
use aitt.Types.{ok, err, runtime_error}
use aitt.Msg.{AittMsg}
use aitt.Flex.{Flexbuffers}
use aitt.Tcp.Info.{pack_msg_info}
use aitt.Tcp.Peers.{ConnectInfo, PortInfo, HostMap, PublishMap, Peers}
use aitt.Tcp.Publish.{Sending, connection, publish_hosts, publish_topics, publish_full}

-- All hosts of the topics that match, in the order of the table.
unfoldable pub targets : (Text → Bool) → PublishMap → HostMap
targets matches [] = []
targets matches ((topic, hosts) ∷ table) =
    let rest = targets matches table in if matches topic then hosts ++ rest else rest

module _ (connects : Text → ConnectInfo → Bool) (clients : List (Text × Text))
    (info payload : Text) where
  -- Where a client is said to be; nowhere is the empty name.
  abbrev pub place : Text → Text
  place client_id = elim (lookup client_id clients) [ none ↦ [] | some h ↦ h ]

  abbrev sent_to : Text → Text → Sending
  sent_to client_id h = record { client_id = client_id; host = h; info = info; data_sent = payload }

  -- What is sent to a list of hosts: over the connection that a host has, else over a new one to the
  -- place of the client. It ends at the first host without a connection to which none can be made.
  unfoldable pub reached : HostMap → List Sending
  reached [] = []
  reached ((client_id, p) ∷ hosts) =
      let rest = reached hosts in
      elim p.client [
        | some h ↦ sent_to client_id h ∷ rest
        | none ↦
            if connects (place client_id) p.info
            then sent_to client_id (place client_id) ∷ rest
            else []
      ]

  -- Whether each host has a connection, or one can be made.
  unfoldable pub all_reached : HostMap → Bool
  all_reached [] = true
  all_reached ((client_id, p) ∷ hosts) =
      elim p.client [ some h ↦ true | none ↦ connects (place client_id) p.info ]
      && all_reached hosts

  connected :
      (client_id : Text) (p : PortInfo)
      → connection connects clients info payload client_id p ≡ elim p.client [
        | some h ↦ some h
        | none ↦ if connects (place client_id) p.info then some (place client_id) else none
      ]
  unfolding connection
  connected client_id p = refl

  hosts-reached :
      (hosts : HostMap)
      → let r = publish_hosts connects clients info payload hosts in
        (r.sendings ≡ reached hosts) × (r.complete ≡ all_reached hosts)
  unfolding publish_hosts reached all_reached
  hosts-reached [] = (refl, refl)
  hosts-reached ((client_id, p) ∷ hosts) =
      let ih = hosts-reached hosts in
      let c = connected client_id p in
      elim (Option-cases p.client) [
        | inl e ↦ elim (Bool-cases (connects (place client_id) p.info)) [
          | inl b ↦ ground arith
          | inr b ↦ ground arith
        ]
        | inr (h, e) ↦ ground arith
      ]

  all_reached-append :
      (xs ys : HostMap)
      → (all_reached (xs ++ ys) ≡ all_reached xs && all_reached ys)
        × (reached (xs ++ ys) ≡ (if all_reached xs then reached xs ++ reached ys else reached xs))
  unfolding reached all_reached
  all_reached-append [] ys = (refl, refl)
  all_reached-append ((client_id, p) ∷ xs) ys =
      let ih = all_reached-append xs ys in
      elim (Option-cases p.client) [
        | inl e ↦ elim (Bool-cases (connects (place client_id) p.info)) [
          | inl b ↦ elim (Bool-cases (all_reached xs)) [
            | inl d ↦ ground arith
            | inr d ↦ ground arith
          ]
          | inr b ↦ ground arith
        ]
        | inr (h, e) ↦ elim (Bool-cases (all_reached xs)) [
          | inl b ↦ ground arith
          | inr b ↦ ground arith
        ]
      ]

  topics-reached :
      (matches : Text → Bool) (table : PublishMap)
      → let r = publish_topics connects clients info payload matches table in
        (r.sendings ≡ reached (targets matches table))
        × (r.complete ≡ all_reached (targets matches table))
  unfolding publish_topics targets reached all_reached
  topics-reached matches [] = (refl, refl)
  topics-reached matches ((topic, hosts) ∷ table) =
      let ih = topics-reached matches table in
      let h = hosts-reached hosts in
      let a = all_reached-append hosts (targets matches table) in
      elim (Bool-cases (matches topic)) [
        | inl m ↦ elim (Bool-cases (all_reached hosts)) [
          | inl b ↦ ground arith
          | inr b ↦ ground arith
        ]
        | inr m ↦ ground arith
      ]

-- `PublishFull` sends the message to the hosts of all topics that match the topic of the message
-- (of a reply, its response topic), each host once for each topic, in the order of the tables,
-- over the connection that it has, else over a new one to the place of its client, up to the first
-- host that has no connection and to which none can be made. It returns if there is
-- no such host; else the exception of the connection leaves it. The hosts' names are not touched.
pub publish_full-reached :
    (flex : Flexbuffers) (compare_topic : Text → Text → Bool) (connects : Text → ConnectInfo → Bool)
    (msg : AittMsg) (payload : Text) (is_reply : Bool) (p : Peers)
    → let r = publish_full flex compare_topic connects msg payload is_reply p in
      let info = pack_msg_info flex msg is_reply in
      let hosts =
        targets
          (λ t. compare_topic t (if is_reply then msg.reply_topic else msg.topic))
          p.publish_table in
      (r.0.1 ≡ reached connects p.client_table info payload hosts)
      × (r.1 ≡ (
          if all_reached connects p.client_table info payload hosts
          then ok tt
          else err runtime_error))
      × (r.0.0.client_table ≡ p.client_table)
unfolding publish_full
publish_full-reached flex compare_topic connects msg payload is_reply p =
    let topic = if is_reply then msg.reply_topic else msg.topic in
    let t =
      topics-reached connects p.client_table (pack_msg_info flex msg is_reply) payload
        (λ t. compare_topic t topic) p.publish_table in
    (t.0, ap (λ b. if b then ok tt else err runtime_error) t.1, refl)
