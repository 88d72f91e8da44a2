-- ===== src/Tcp/Server/Receiving.antt =====
-- modules/tcp/Module.cc: `AcceptConnection`, `ReceiveData`, `GetMsgInfo` and
-- `HandleClientDisconnect`: connections of peers, and the messages that come over them.
use aitt.Base.{
  ℕ, ◌==◌, Bool, true, false, List, [], ◌∷◌, ◌++◌, Option, none, some, if◌then◌else◌, Text,
  is_empty, lookup, insert, erase, number_key, ℤ, pos, negsuc,
}
use aitt.Msg.{AittMsg, new_msg}
use aitt.Flex.{Flexbuffers}
use aitt.Tcp.Stream.{Source}
use aitt.Tcp.Framing.{Cipher, SizedEnd, returned, waits, recv_sized}
use aitt.Tcp.Info.{unpack_msg_info}
use aitt.Tcp.Server.{Callback, ListenInfo, Server, receives}

-- AITT_LOOP_EVENT_REMOVE and AITT_LOOP_EVENT_CONTINUE
pub data LoopEvent : Type 0 where
  remove continue : LoopEvent

-- `accepted` is the descriptor of the peer that `AcceptPeer` returns; `a` is the listener of the
-- watch.
unfoldable pub accept_connection : (accepted : Option ℕ) → ℕ → Server → Server × LoopEvent
accept_connection accepted a s = elim (lookup a s.subscribe_table) [
  | none ↦ (s, remove)
  | some l ↦ elim accepted [
    | none ↦ (s, continue)
    | some fd ↦ (
      record s {
        subscribe_table =
            insert a (record l { client_list = l.client_list ++ fd ∷ [] }) s.subscribe_table;
        watches = insert fd (receives a) s.watches;
      },
      continue,
    )
  ]
]

-- `std::find` and `erase` of a descriptor.
unfoldable pub without_fd : ℕ → List ℕ → List ℕ
without_fd fd [] = []
without_fd fd (x ∷ xs) = if x == fd then xs else x ∷ without_fd fd xs

abbrev disconnect_from : ℕ → ℕ → Server → Server
disconnect_from fd a s = elim (lookup a s.subscribe_table) [
  | none ↦ s
  | some l ↦ record s {
    subscribe_table =
        insert a (record l { client_list = without_fd fd l.client_list }) s.subscribe_table;
  }
]

-- A watch with other data than `TCPData` is removed all the same.
unfoldable pub handle_client_disconnect : ℕ → Server → Server × LoopEvent
unfolding without_fd
handle_client_disconnect fd s =
    let s' = record s { watches = erase fd s.watches } in
    elim (lookup fd s.watches) [
      | some (receives a) ↦ (disconnect_from fd a s', remove)
      | _ ↦ (s', remove)
    ]

-- A call of a subscriber's callback. `msg` is `none` for a null pointer.
pub record Received : Type 0 where
  pub callback : Callback
  pub info : AittMsg
  pub msg : Option Text
  pub szmsg : ℤ

unfoldable pub call_all : List Callback → AittMsg → Option Text → ℤ → List Received
call_all [] info msg n = []
call_all (c ∷ cs) info msg n =
    record { callback = c; info = info; msg = msg; szmsg = n } ∷ call_all cs info msg n

-- What a call of `ReceiveData` leaves; `none` where a call of `recv` does not return.
pub record Handled : Type 0 where
  pub server : Server
  pub calls : List Received
  pub source : Source
  pub answer : LoopEvent

abbrev pub callbacks_of : Option ListenInfo → List Callback
callbacks_of none = []
callbacks_of (some l) = l.cb_list

abbrev pub is_enotconn : ℤ → Bool
is_enotconn (pos n) = false
is_enotconn (negsuc n) = n == 106

module _ (flex : Flexbuffers) (secure : Bool) (crypto : Cipher) (memory : ℕ → Text) where
  -- The second half: the payload, and the callbacks.
  unfoldable pub receive_payload : ℕ → ℕ → AittMsg → SizedEnd → Server → Option Handled
  unfolding handle_client_disconnect call_all
  receive_payload fd a info waits s = none
  receive_payload fd a info (returned (negsuc k) buf source) s =
      if k == 106
      then (let r = handle_client_disconnect fd s in
          some (record { server = r.0; calls = []; source = source; answer = r.1 }))
      else some (record { server = s; calls = []; source = source; answer = continue })
  receive_payload fd a info (returned (pos n) buf source) s =
      let calls = call_all (callbacks_of (lookup a s.subscribe_table)) info buf (pos n) in
      some (record { server = s; calls = calls; source = source; answer = continue })

  -- `GetMsgInfo`: the message as it is told of, and the state, for a peer that has gone.
  unfoldable pub get_msg_info : ℕ → ℤ → Option Text → Server → AittMsg × Server
  unfolding handle_client_disconnect unpack_msg_info new_msg
  get_msg_info fd n buf s =
      if is_enotconn n
      then (new_msg, (handle_client_disconnect fd s).0)
      else elim buf [ none ↦ (new_msg, s) | some b ↦ (unpack_msg_info flex new_msg b, s) ]

  -- `hangup` is the event of the main loop; `fd` is watched for the listener a.
  unfoldable pub receive_data : (hangup : Bool) → ℕ → ℕ → Source → Server → Option Handled
  unfolding receive_payload get_msg_info recv_sized handle_client_disconnect
  receive_data true fd a source s =
      let r = handle_client_disconnect fd s in
      some (record { server = r.0; calls = []; source = source; answer = r.1 })
  receive_data false fd a source s = elim (recv_sized secure crypto memory source) [
    | waits ↦ none
    | returned n buf source' ↦
        let r = get_msg_info fd n buf s in
        if is_empty r.0.topic
        then some (record { server = r.1; calls = []; source = source'; answer = continue })
        else receive_payload fd a r.0 (recv_sized secure crypto memory source') r.1
  ]
