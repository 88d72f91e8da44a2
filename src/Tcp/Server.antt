-- ===== src/Tcp/Server.antt =====
-- modules/tcp/Module.cc: the listening side of the module: its tables, `Subscribe`, `Unsubscribe` and
-- `UpdateDiscoveryMsg`. Objects are known by their addresses, and watches by their descriptors.
pub mod Receiving
pub mod Laws
pub mod Delivery
use aitt.Base.{
  ℕ, suc, ◌==◌, Bool, true, false, List, [], ◌∷◌, ◌++◌, Option, none, some, if◌then◌else◌, ltb,
  length, Text, codes, text_eq, c_str, is_empty, lookup, insert, erase, number_key, ℤ, pos, negsuc,
}
use aitt.Types.{Result, ok, err, mqtt_err, runtime_error}
use aitt.Msg.{AittMsg, new_msg}
use aitt.Flex.{Item, num, bytes, Field, str, vector, Flexbuffers}
use aitt.Tcp.Stream.{Source, enotconn}
use aitt.Tcp.Framing.{Cipher, SizedEnd, returned, waits, recv_sized}
use aitt.Tcp.Info.{unpack_msg_info}

-- `Subscribe_CB_Info`, with its address.
pub record Callback : Type 0 where
  pub addr : ℕ
  pub cb : ℕ
  pub cbdata : ℕ

-- `TCPServerData`, with what `TCP::Server` keeps: the port, the descriptor and the keys.
pub record ListenInfo : Type 0 where
  pub topic : Text
  pub cb_list : List Callback
  pub client_list : List ℕ
  pub port : ℕ
  pub handle : ℕ
  pub key : Text
  pub iv : Text

-- The data of a watch: `TCPServerData` by its address, or `TCPData` by that of its parent.
pub data Watch : Type 0 where
  accepts receives : ℕ → Watch

-- `subscribe_handles` has the callback that an address points at; `announced` records what is
-- handed to `AittDiscovery::UpdateDiscoveryMsg`.
pub record Server : Type 0 where
  pub subscribe_table : List (ℕ × ListenInfo)
  pub subscribe_handles : List (ℕ × (Callback × ℕ))
  pub watches : List (ℕ × Watch)
  pub announced : List Text

-- `TCP::Server`, as its constructor makes it, and the address of the new `TCPServerData`.
pub record NewServer : Type 0 where
  pub addr : ℕ
  pub port : ℕ
  pub handle : ℕ
  pub key : Text
  pub iv : Text

-- The first listener for a topic.
unfoldable pub find_topic : Text → List (ℕ × ListenInfo) → Option (ℕ × ListenInfo)
find_topic topic [] = none
find_topic topic ((a, l) ∷ table) =
    if text_eq l.topic topic then some (a, l) else find_topic topic table

abbrev port_items : Bool → ListenInfo → List Item
port_items true l = num l.port ∷ num (length l.cb_list) ∷ bytes l.key ∷ bytes l.iv ∷ []
port_items false l = num l.port ∷ num (length l.cb_list) ∷ []

unfoldable pub topic_fields : Bool → List (ℕ × ListenInfo) → List (Text × Field)
topic_fields secure [] = []
topic_fields secure ((a, l) ∷ table) =
    (c_str l.topic, vector (port_items secure l)) ∷ topic_fields secure table

-- `std::find_if` by address and `erase`; `none` where there is no such callback.
unfoldable pub without_callback : ℕ → List Callback → Option (List Callback)
without_callback a [] = none
without_callback a (c ∷ cs) =
    let rest = without_callback a cs in
    if c.addr == a then some cs else elim rest [ none ↦ none | some ds ↦ some (c ∷ ds) ]

unfoldable pub remove_watches : List ℕ → List (ℕ × Watch) → List (ℕ × Watch)
remove_watches [] ws = ws
remove_watches (fd ∷ fds) ws = remove_watches fds (erase fd ws)

module _ (flex : Flexbuffers) (ip : Text) (secure : Bool) where
  unfoldable pub update_discovery_msg : Server → Server
  unfolding topic_fields
  update_discovery_msg s = record s {
    announced =
        flex.build_map ((codes "host", str ip) ∷ topic_fields secure s.subscribe_table)
        ∷ s.announced;
  }

  -- `published` tells whether `UpdateDiscoveryMsg` returns; if it throws, the callback is in the
  -- list, but has no handle.
  abbrev handed : (published : Bool) → Callback → ℕ → Server → Server × Result ℕ
  unfolding update_discovery_msg
  handed published c a s =
      let s' = update_discovery_msg s in
      if published
      then (record s' { subscribe_handles = insert c.addr (c, a) s'.subscribe_handles }, ok c.addr)
      else (s', err mqtt_err)

  -- `created` is the new server, if its constructor does not throw.
  unfoldable pub subscribe :
      (published : Bool) → Callback → Option NewServer → Text → Server → Server × Result ℕ
  unfolding find_topic update_discovery_msg
  subscribe published c created topic s = elim (find_topic topic s.subscribe_table) [
    | some (a, l) ↦ handed published c a (record s {
      subscribe_table = insert a (record l { cb_list = l.cb_list ++ c ∷ [] }) s.subscribe_table;
    })
    | none ↦ elim created [
      | none ↦ (s, err runtime_error)
      | some n ↦ handed published c n.addr (record s {
        subscribe_table =
            insert n.addr
              (record {
                topic = topic;
                cb_list = c ∷ [];
                client_list = [];
                port = n.port;
                handle = n.handle;
                key = n.key;
                iv = n.iv;
              })
              s.subscribe_table;
        watches = insert n.handle (accepts n.addr) s.watches;
      })
    ]
  ]

  -- The last callback of a listener goes: it is taken down with its connections.
  unfoldable pub take_down : (published : Bool) → ℕ → ListenInfo → ℕ → Server → Server × Result ℕ
  unfolding remove_watches update_discovery_msg
  take_down published a l cbdata s =
      let s' = update_discovery_msg (record s {
        subscribe_table = erase a s.subscribe_table;
        watches = erase l.handle (remove_watches l.client_list s.watches);
      }) in
      (s', if published then ok cbdata else err mqtt_err)

  -- An unknown handle gives nullptr, here 0. A handle whose listener is gone, which the source would
  -- read after it was freed, is taken for an error.
  unfoldable pub unsubscribe : (published : Bool) → ℕ → Server → Server × Result ℕ
  unfolding without_callback take_down
  unsubscribe published h s = elim (lookup h s.subscribe_handles) [
    | none ↦ (s, ok 0)
    | some (c, a) ↦
        let s' = record s { subscribe_handles = erase h s.subscribe_handles } in
        elim (lookup a s.subscribe_table) [
          | none ↦ (s', err runtime_error)
          | some l ↦ elim (ltb 1 (length l.cb_list)) [
            | false ↦ take_down published a l c.cbdata s'
            | true ↦ elim (without_callback h l.cb_list) [
              | none ↦ (s', err runtime_error)
              | some cs ↦ (
                record s' {
                  subscribe_table = insert a (record l { cb_list = cs }) s.subscribe_table;
                },
                ok c.cbdata,
              )
            ]
          ]
        ]
  ]
