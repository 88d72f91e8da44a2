-- ===== src/Tcp/Publish.antt =====
-- modules/tcp/Module.cc: `PublishFull`, `Publish`, `PublishWithReply` and `SendReply`: a message goes
-- to every host that announced a matching topic, over a connection that is made when it is first
-- needed.
pub mod Laws
use aitt.Base.{
  ℕ, Bool, true, false, List, [], ◌∷◌, ◌++◌, Option, none, some, if◌then◌else◌, Text, lookup,
  text_key,
}
use aitt.Types.{Result, ok, err, runtime_error}
use aitt.Msg.{AittMsg, new_msg, set_topic, set_response_topic, set_correlation}
use aitt.Flex.{Flexbuffers}
use aitt.Tcp.Info.{pack_msg_info}
use aitt.Tcp.Peers.{ConnectInfo, PortInfo, HostMap, PublishMap, Peers}

-- The two calls of `SendSizedData` for one host. What they throw is caught, and changes nothing.
pub record Sending : Type 0 where
  pub client_id : Text
  pub host : Text
  pub info : Text
  pub data_sent : Text

-- The table as it is left, what was sent, and whether the loop came to its end.
pub record Published {ℓ} (A : Type ℓ) : Type ℓ where
  pub table : A
  pub sendings : List Sending
  pub complete : Bool

-- The host of a client; an unknown client's is empty.
abbrev pub host_name : Text → List (Text × Text) → Text
host_name client_id clients = elim (lookup client_id clients) [ none ↦ [] | some h ↦ h ]

-- `connects` tells whether the constructor of `TCP` returns, for a host and what it announced.
module _ (connects : Text → ConnectInfo → Bool) (clients : List (Text × Text))
    (info payload : Text) where
  -- The connection of a host: the one that there is, or a new one. `none` is an exception.
  unfoldable pub connection : Text → PortInfo → Option Text
  connection client_id p = elim p.client [
    | some h ↦ some h
    | none ↦ let h = host_name client_id clients in if connects h p.info then some h else none
  ]

  abbrev sending : Text → Text → Sending
  sending client_id h = record { client_id = client_id; host = h; info = info; data_sent = payload }

  -- The inner loop.
  unfoldable pub publish_hosts : HostMap → Published HostMap
  unfolding connection
  publish_hosts [] = record { table = []; sendings = []; complete = true }
  publish_hosts ((client_id, p) ∷ hosts) =
      let rest = publish_hosts hosts in
      elim (connection client_id p) [
        | none ↦ record { table = (client_id, p) ∷ hosts; sendings = []; complete = false }
        | some h ↦ record {
          table = (client_id, record p { client = some h }) ∷ rest.table;
          sendings = sending client_id h ∷ rest.sendings;
          complete = rest.complete;
        }
      ]

  -- The outer loop. An exception leaves it.
  unfoldable pub publish_topics : (Text → Bool) → PublishMap → Published PublishMap
  unfolding publish_hosts
  publish_topics matches [] = record { table = []; sendings = []; complete = true }
  publish_topics matches ((topic, hosts) ∷ table) =
      let here = publish_hosts hosts in
      let rest = publish_topics matches table in
      if matches topic
      then (if here.complete
          then record {
            table = (topic, here.table) ∷ rest.table;
            sendings = here.sendings ++ rest.sendings;
            complete = rest.complete;
          }
          else record {
            table = (topic, here.table) ∷ table;
            sendings = here.sendings;
            complete = false;
          })
      else record {
        table = (topic, hosts) ∷ rest.table;
        sendings = rest.sendings;
        complete = rest.complete;
      }

module _ (flex : Flexbuffers) (compare_topic : Text → Text → Bool)
    (connects : Text → ConnectInfo → Bool) where
  -- A negative size, for which nothing is done, has no payload here.
  unfoldable pub publish_full :
      AittMsg → Text → Bool → Peers → (Peers × List Sending) × Result (Unit {0})
  unfolding publish_topics
  publish_full msg payload is_reply p =
      let topic = if is_reply then msg.reply_topic else msg.topic in
      let r =
        publish_topics connects p.client_table (pack_msg_info flex msg is_reply) payload
          (λ t. compare_topic t topic) p.publish_table in
      (
        (record p { publish_table = r.table }, r.sendings),
        if r.complete then ok tt else err runtime_error,
      )

  unfoldable pub publish : Text → Text → Peers → (Peers × List Sending) × Result (Unit {0})
  unfolding publish_full set_topic new_msg
  publish topic payload p = publish_full (set_topic topic new_msg) payload false p

  unfoldable pub publish_with_reply :
      Text → Text → Text → Text → Peers → (Peers × List Sending) × Result (Unit {0})
  unfolding publish_full set_topic set_response_topic set_correlation new_msg
  publish_with_reply topic payload reply_topic correlation p =
      publish_full
        (set_correlation correlation (set_response_topic reply_topic (set_topic topic new_msg)))
        payload false p

  -- A null message throws.
  unfoldable pub send_reply :
      Option AittMsg → Text → Peers → (Peers × List Sending) × Result (Unit {0})
  unfolding publish_full
  send_reply none payload p = ((p, []), err runtime_error)
  send_reply (some msg) payload p = publish_full msg payload true p
