-- ===== src/Tcp/Peers.antt =====
-- modules/tcp/Module.cc: what the module knows of its peers, `clientTable` and `publishTable`, and
-- the operations on them: `DiscoveryMessageCallback`, `UpdatePublishTable` and `CountSubscriber`.
pub mod Table
pub mod Leaving
use aitt.Base.{
  ℕ, ◌+◌, ◌==◌, Bool, true, false, List, [], ◌∷◌, Option, none, some, if◌then◌else◌, length,
  get_elem?, Text, codes, text_eq, c_str, lookup, insert, erase, text_key,
}
use aitt.Flex.{Item, Flexbuffers}

-- `TCP::ConnectInfo`
pub record ConnectInfo : Type 0 where
  pub port : ℕ
  pub num_of_cb : ℕ
  pub secure : Bool
  pub key : Text
  pub iv : Text

-- `PortInfo`: with the connection, by the host that it goes to, once there is one.
pub record PortInfo : Type 0 where
  pub info : ConnectInfo
  pub client : Option Text

-- `HostMap` and `PublishMap`
abbrev pub HostMap : Type 0
HostMap = List (Text × PortInfo)

abbrev pub PublishMap : Type 0
PublishMap = List (Text × HostMap)

pub record Peers : Type 0 where
  pub client_table : List (Text × Text)
  pub publish_table : PublishMap

-- AittDiscovery::WILL_LEAVE_NETWORK
abbrev pub will_leave_network : Text
will_leave_network = codes "disconnected"

abbrev pub host_key : Text
host_key = codes "host"

-- TCP::CONN_INFO_MAX, AITT_TCP_ENCRYPTOR_KEY_LEN and AITT_TCP_ENCRYPTOR_IV_LEN
abbrev pub conn_info_max : ℕ
conn_info_max = 4

abbrev pub key_len : ℕ
key_len = 32

abbrev pub iv_len : ℕ
iv_len = 16

abbrev pub zeros : ℕ → Text
zeros ℕ.zero = []
zeros (ℕ.suc n) = 0 ∷ zeros n

-- The entry of a host that is known: the same port keeps the connection and the keys.
unfoldable pub renewed : ConnectInfo → PortInfo → PortInfo
renewed info p =
    if p.info.port == info.port
    then record p { info = record (p.info) { num_of_cb = info.num_of_cb } }
    else record { info = info; client = none }

unfoldable pub update_publish_table : Text → Text → ConnectInfo → PublishMap → PublishMap
unfolding renewed
update_publish_table topic client_id info table =
    let fresh : PortInfo = record { info = info; client = none } in
    elim (lookup topic table) [
      | none ↦ insert topic ((client_id, fresh) ∷ []) table
      | some hosts ↦ elim (lookup client_id hosts) [
        | none ↦ insert topic (insert client_id fresh hosts) table
        | some p ↦ insert topic (insert client_id (renewed info p) hosts) table
      ]
    ]

-- `it->second.erase(clientId)` for every topic.
unfoldable pub erase_client : Text → PublishMap → PublishMap
erase_client client_id [] = []
erase_client client_id ((topic, hosts) ∷ table) =
    (topic, erase client_id hosts) ∷ erase_client client_id table

-- The client's host, new or changed.
unfoldable pub update_client_table : Text → Text → List (Text × Text) → List (Text × Text)
update_client_table client_id host table = elim (lookup client_id table) [
  | none ↦ insert client_id host table
  | some old ↦ if text_eq old host then table else insert client_id host table
]

-- `memcpy` of a blob of the right size; else the array stays zero.
abbrev pub sized_blob : ℕ → Text → Text
sized_blob n b = if length b == n then b else zeros n

module _ (flex : Flexbuffers) (secure : Bool) where
  open flex use {as_uint16, as_blob}

  -- `none` is the return at an unknown message.
  unfoldable pub read_connect_info : List Item → Option ConnectInfo
  read_connect_info items =
      let port = as_uint16 (get_elem? items 0) in
      let num_of_cb = as_uint16 (get_elem? items 1) in
      if secure
      then (if length items == conn_info_max
          then some (record {
            port = port;
            num_of_cb = num_of_cb;
            secure = true;
            key = sized_blob key_len (as_blob (get_elem? items 2));
            iv = sized_blob iv_len (as_blob (get_elem? items 3));
          })
          else none)
      else some (record {
        port = port;
        num_of_cb = num_of_cb;
        secure = false;
        key = zeros key_len;
        iv = zeros iv_len;
      })

  -- The loop over the keys. `items` is `map[topic].AsVector()`.
  unfoldable pub update_topics : Text → (Text → List Item) → List Text → PublishMap → PublishMap
  update_topics client_id items [] table = table
  update_topics client_id items (key ∷ keys) table =
      let topic = c_str key in
      elim (text_eq topic host_key) [
        | true ↦ update_topics client_id items keys table
        | false ↦ elim (read_connect_info (items topic)) [
          | none ↦ table
          | some info ↦
              update_topics client_id items keys (update_publish_table topic client_id info table)
        ]
      ]

  unfoldable pub discovery_message_callback : Text → Text → Text → Peers → Peers
  unfolding update_topics update_client_table erase_client
  discovery_message_callback client_id status msg p =
      if text_eq status will_leave_network
      then record {
        client_table = erase client_id p.client_table;
        publish_table = erase_client client_id p.publish_table;
      }
      else record {
        client_table =
            update_client_table client_id (c_str (flex.as_string (flex.read_field msg host_key)))
              p.client_table;
        publish_table =
            update_topics client_id (λ topic. flex.as_vector (flex.read_field msg topic))
              (flex.read_keys msg) p.publish_table;
      }

-- The callbacks of the hosts of one topic.
unfoldable pub count_hosts : HostMap → ℕ
count_hosts [] = 0
count_hosts ((client_id, p) ∷ hosts) = p.info.num_of_cb + count_hosts hosts

-- `compare_topic` is `AittDiscovery::CompareTopic`.
unfoldable pub count_subscriber : (Text → Text → Bool) → Text → PublishMap → ℕ
unfolding count_hosts
count_subscriber compare_topic topic [] = 0
count_subscriber compare_topic topic ((t, hosts) ∷ table) =
    (if compare_topic t topic then count_hosts hosts else 0)
    + count_subscriber compare_topic topic table
