-- ===== src/Discovery.antt =====
-- common/AittDiscovery.cc: the messages by which the clients tell each other what they offer, and
-- the callbacks of the modules that read them. The connection to the broker is an `MQ` of its own:
-- its calls are recorded, and whether they throw is an argument.
pub mod Laws
pub mod Blobs
pub mod Reads
use aitt.Base.{
  ℕ, suc, ◌+◌, ◌==◌, Bool, true, false, List, [], ◌∷◌, ◌++◌, Option, none, some, if◌then◌else◌, not,
  ltb, length, take, drop, is_empty, Text, codes, text_eq, c_str, lookup, insert, erase, text_key,
  number_key,
}
use aitt.Types.{Result, ok, err, mqtt_err, discovery_topic_base}
use aitt.Flex.{Field, str, blob, Flexbuffers}
use aitt.Tcp.Peers.{will_leave_network}

-- The calls of `discovery_mq`. `connection_callback` tells whether the callback is set or taken
-- away; `publishes` has `none` for the empty payload.
pub data Call : Type 0 where
  will : Text → Call
  connection_callback : Bool → Call
  connects disconnects : Call
  subscribes : Text → Call
  unsubscribes : ℕ → Call
  publishes : (topic : Text) → (payload : Option Text) → (qos : ℕ) → (retain : Bool) → Call

-- A callback's protocol, and its name.
abbrev pub DiscoveryCallback : Type 0
DiscoveryCallback = Text × ℕ

-- `callback_handle` is a pointer, 0 for nullptr.
pub record Discovery : Type 0 where
  pub is_running : Bool
  pub id : Text
  pub callback_handle : ℕ
  pub discovery_map : List (Text × Text)
  pub callbacks : List (ℕ × DiscoveryCallback)
  pub calls : List Call

abbrev pub join_network : Text
join_network = codes "connected"

abbrev pub status_key : Text
status_key = codes "status"

-- AITT_QOS_AT_MOST_ONCE and AITT_QOS_EXACTLY_ONCE
abbrev pub at_most_once : ℕ
at_most_once = 0

abbrev pub exactly_once : ℕ
exactly_once = 2

abbrev pub all_topics : Text
all_topics = discovery_topic_base ++ codes "+"

abbrev called : List Call → Discovery → Discovery
called cs d = record d { calls = d.calls ++ cs }

-- `willed` and `connected` tell whether `SetWillInfo` and `Connect` return.
unfoldable pub start : (willed connected : Bool) → Discovery → Discovery × Result (Unit {0})
start willed connected d =
    if not (d.callback_handle == 0)
    then (d, ok tt)
    else (let d1 = called (will (discovery_topic_base ++ d.id) ∷ []) d in
        let d2 = called (connection_callback true ∷ connects ∷ []) d1 in
        if not willed
        then (d1, err mqtt_err)
        else if connected
        then (record d2 { is_running = true }, ok tt)
        else (d2, err mqtt_err))

-- The callback that `Start` sets, at a status. `handle` is what `Subscribe` returns, or throws.
unfoldable pub connection_changed : (connected : Bool) → (handle : Result ℕ) → Discovery → Discovery
connection_changed connected handle d =
    if not connected
    then record d { is_running = false }
    else if d.callback_handle == 0
    then elim handle [
      | ok h ↦ record (called (subscribes all_topics ∷ []) d) { callback_handle = h }
      | err e ↦ called (subscribes all_topics ∷ []) d
    ]
    else d

-- `removed` tells whether `Unsubscribe` returns.
unfoldable pub restart :
    (removed : Bool) → (handle : Result ℕ) → Discovery → Discovery × Result (Unit {0})
restart removed handle d =
    if d.callback_handle == 0
    then (d, ok tt)
    else (let d' = called (unsubscribes d.callback_handle ∷ []) d in
        if not removed then (d', err mqtt_err) else elim handle [
          | ok h ↦ (record (called (subscribes all_topics ∷ []) d') { callback_handle = h }, ok tt)
          | err e ↦ (called (subscribes all_topics ∷ []) d', err e)
        ])

-- How far `Stop` gets: each of its calls that can throw may end it.
pub data StopEnd : Type 0 where
  stays_subscribed stays_announced stays_announced_twice stays_connected stopped : StopEnd

abbrev pub leave : ℕ → Discovery → Call
leave qos d = publishes (discovery_topic_base ++ d.id) none qos true

unfoldable pub stop : StopEnd → Discovery → Discovery × Result (Unit {0})
stop end d0 =
    let d = called (connection_callback false ∷ []) (record d0 { is_running = false }) in
    let d1 = called (unsubscribes d.callback_handle ∷ []) d in
    let d2 = called (leave exactly_once d ∷ []) d1 in
    let d3 = called (leave at_most_once d ∷ []) d2 in
    let d4 = called (disconnects ∷ []) (record d3 { callback_handle = 0 }) in
    elim end [
      | stays_subscribed ↦ (d1, err mqtt_err)
      | stays_announced ↦ (d2, err mqtt_err)
      | stays_announced_twice ↦ (d3, err mqtt_err)
      | stays_connected ↦ (d4, err mqtt_err)
      | stopped ↦ (d4, ok tt)
    ]

unfoldable pub blob_fields : List (Text × Text) → List (Text × Field)
blob_fields [] = []
blob_fields ((protocol, b) ∷ map) = (protocol, blob b) ∷ blob_fields map

-- The message of `PublishDiscoveryMsg`.
unfoldable pub discovery_msg : Flexbuffers → List (Text × Text) → Text
unfolding blob_fields
discovery_msg flex map = flex.build_map ((status_key, str join_network) ∷ blob_fields map)

-- `published` tells whether `Publish` returns.
unfoldable pub update_discovery_msg :
    Flexbuffers → (published : Bool) → Text → Text → Discovery → Discovery × Result (Unit {0})
unfolding discovery_msg
update_discovery_msg flex published protocol msg d =
    let map = insert protocol msg d.discovery_map in
    let d' =
      called
        (publishes (discovery_topic_base ++ d.id) (some (discovery_msg flex map)) exactly_once true
          ∷ [])
        (record d { discovery_map = map }) in
    (d', if published then ok tt else err mqtt_err)

-- `last_id` is the counter that all objects share; it is `last_id + 1` afterwards.
unfoldable pub add_discovery_cb : (last_id : ℕ) → Text → ℕ → Discovery → Discovery × ℕ
add_discovery_cb last_id protocol cb d =
    (record d { callbacks = insert (suc last_id) (protocol, cb) d.callbacks }, suc last_id)

unfoldable pub remove_discovery_cb : ℕ → Discovery → Discovery
remove_discovery_cb callback_id d = record d { callbacks = erase callback_id d.callbacks }

-- A call of a module's callback; no message is `none`.
pub record Notice : Type 0 where
  pub cb : ℕ
  pub client_id : Text
  pub status : Text
  pub msg : Option Text

-- `find(c, start)`: the position in the whole text.
unfoldable pub find_byte : ℕ → ℕ → Text → Option ℕ
find_byte c i [] = none
find_byte c i (x ∷ xs) = let rest = find_byte c (suc i) xs in if x == c then some i else rest

-- `substr(start, end)`, whose second argument is a number of bytes. `none` is `std::out_of_range`.
unfoldable pub client_id_of : Text → Option Text
unfolding find_byte
client_id_of topic =
    let n = length discovery_topic_base in
    if ltb (length topic) n then none else elim (find_byte 47 n (drop n topic)) [
      | none ↦ some (drop n topic)
      | some end ↦ some (take end (drop n topic))
    ]

-- Everyone is told that the client leaves.
unfoldable pub leave_notices : Text → List (ℕ × DiscoveryCallback) → List Notice
leave_notices client_id [] = []
leave_notices client_id ((i, (p, cb)) ∷ callbacks) =
    record { cb = cb; client_id = client_id; status = will_leave_network; msg = none }
    ∷ leave_notices client_id callbacks

-- The callbacks of one protocol are told its blob.
unfoldable pub key_notices : Text → Text → Text → Text → List (ℕ × DiscoveryCallback) → List Notice
key_notices client_id status key b [] = []
key_notices client_id status key b ((i, (p, cb)) ∷ callbacks) =
    let rest = key_notices client_id status key b callbacks in
    if text_eq p key
    then record { cb = cb; client_id = client_id; status = status; msg = some b } ∷ rest
    else rest

module _ (flex : Flexbuffers) (client_id status msg : Text)
    (callbacks : List (ℕ × DiscoveryCallback)) where
  unfoldable pub map_notices : List Text → List Notice
  unfolding key_notices
  map_notices [] = []
  map_notices (key ∷ keys) =
      let rest = map_notices keys in
      if text_eq key status_key
      then rest
      else key_notices client_id status key (flex.as_blob_field (flex.read_field msg key)) callbacks
        ++ rest

-- The calls of `DiscoveryMessageCallback`. `none` is an exception.
unfoldable pub discovery_message_callback :
    Flexbuffers → Text → Option Text → Discovery → Option (List Notice)
unfolding client_id_of leave_notices map_notices
discovery_message_callback flex topic msg d = elim (client_id_of topic) [
  | none ↦ none
  | some client_id ↦ if is_empty client_id then some [] else elim msg [
    | none ↦ some (leave_notices client_id d.callbacks)
    | some m ↦ some (
        map_notices flex client_id (c_str (flex.as_string (flex.read_field m status_key))) m
          d.callbacks (flex.read_keys m))
  ]
]
