-- ===== src/Impl/Sync.antt =====
-- src/AITTImpl.cc: `PublishWithReplySync`, a request that waits for its replies in a main loop of its
-- own, with a timeout that every reply but the last one sets anew; and `SendReply`.
pub mod Steps
pub mod Waiting
pub mod Left
pub mod Released
use aitt.Base.{
  ℕ, suc, ◌==◌, ◌%◌, Bool, true, false, List, [], ◌∷◌, ◌++◌, Option, none, some, if◌then◌else◌, not,
  ltb, length, Text, lookup, number_key,
}
use aitt.Types.{
  AittProtocol, unknown, mqtt, tcp, tcp_secure, Result, ok, err, invalid_arg, message_max,
}
use aitt.Flex.{Flexbuffers}
use aitt.MqDiscovery.{MqDiscovery}
use aitt.Msg.{AittMsg, set_id, number_reply}
use aitt.Loop.{Loop, Entry, okay, quit_loop, add_timeout, remove_timeout}
use aitt.Impl.{Transport, SubscribeInfo, Client, reply_topic, subscribe_mq, unsubscribe}

-- What happens in the loop: a reply that was handed to it is read, or the timer of an identifier is
-- due. `told` lists the messages that the callback of the user was called with.
pub data Happens : Type 0 where
  replied : AittMsg → Happens
  expired : ℕ → Happens

pub record Sync (M T : Type 0) : Type 0 where
  pub client : Client M T
  pub loop : Loop
  pub timeout_id : ℕ
  pub is_timeout : Bool
  pub told : List AittMsg

-- What is returned: -1, AITT_ERROR_TIMED_OUT or 0; `waits` stands for a call that has not come back.
pub data SyncEnd : Type 0 where
  not_supported timed_out answered waits : SyncEnd

abbrev pub timeout_entry : ℕ → Entry
timeout_entry timeout_ms = record {
  cb = 0;
  user_data = 0;
  result = okay;
  fd = 1;
  interval = timeout_ms;
}

-- `MainLoopHandler::new_loop`, when `Run` has begun. `identifier` is a counter that all loops share.
abbrev pub sync_loop : (identifier : ℕ) → Loop
sync_loop identifier = record {
  running = true;
  watch_table = [];
  timeout_table = [];
  idle_table = [];
  idle_pipe = [];
  timeout_pipe = [];
  identifier = identifier;
}

-- The transport that `SendReply` calls, with the message that it is given.
pub data Route : Type 0 where
  by_mqtt by_tcp by_secure : AittMsg → Route

-- `AITT::SendReply` and `AITT::Impl::SendReply`. The message of the caller is changed as well.
unfoldable pub send_reply :
    (payload : Text) → (end : Bool) → Option AittMsg → Result (Option AittMsg × Option Route)
unfolding number_reply
send_reply payload end msg =
    if ltb message_max (length payload) then err invalid_arg else elim msg [
      | none ↦ ok (none, none)
      | some m ↦
          let m' = number_reply end m in
          ok (
            some m',
            elim m'.protocol [
              | mqtt ↦ some (by_mqtt m')
              | tcp ↦ some (by_tcp m')
              | tcp_secure ↦ some (by_secure m')
              | unknown ↦ none
            ],
          )
    ]

abbrev pub info_of : ℕ → ℕ → SubscribeInfo
info_of a h = record { addr = a; protocol = mqtt; handle = h }

abbrev pub sync_end : {M T : Type 0} → Sync M T → SyncEnd
sync_end s = if s.loop.running then waits else if s.is_timeout then timed_out else answered

-- `created` tells whether `SetTimer` gives a timer.
module _ {M T : Type 0} (flex : Flexbuffers) (published : MqDiscovery → Bool)
    (mqtt_ops : Transport M) (tcp_ops : Transport T) (created : Loop → Bool) where
  unfoldable pub handle_timeout : (timeout_ms : ℕ) → Sync M T → Sync M T
  unfolding add_timeout
  handle_timeout timeout_ms s =
      let (loop, id) = add_timeout (created s.loop) (timeout_entry timeout_ms) s.loop in
      record s { loop = loop; timeout_id = id }

  -- The callback of the timeout, which is then removed.
  unfoldable pub timeout_fired : ℕ → Sync M T → Sync M T
  unfolding quit_loop remove_timeout
  timeout_fired id s = record s { loop = remove_timeout id (quit_loop s.loop).0; is_timeout = true }

  -- The callback of the subscription with the address `a`.
  unfoldable pub reply_read : (a timeout_ms : ℕ) → AittMsg → Sync M T → Sync M T
  unfolding handle_timeout
  reply_read a timeout_ms m s =
      let msg = set_id a m in
      let s' =
        if msg.end_sequence
        then record s {
          client = (unsubscribe flex published mqtt_ops tcp_ops msg.id s.client).0;
          loop = (quit_loop s.loop).0;
        }
        else if s.timeout_id == 0
        then s
        else handle_timeout timeout_ms (record s { loop = remove_timeout s.timeout_id s.loop }) in
      record s' { told = s'.told ++ msg ∷ [] }

  unfoldable pub sync_step : (a timeout_ms : ℕ) → Happens → Sync M T → Sync M T
  unfolding reply_read timeout_fired
  sync_step a timeout_ms (replied m) s = reply_read a timeout_ms m s
  sync_step a timeout_ms (expired id) s = elim (lookup id s.loop.timeout_table) [
    | none ↦ s
    | some e ↦ timeout_fired id s
  ]

  -- `Run` of the loop, until it is quitted.
  unfoldable pub sync_run : (a timeout_ms : ℕ) → List Happens → Sync M T → Sync M T
  unfolding sync_step
  sync_run a timeout_ms [] s = s
  sync_run a timeout_ms (v ∷ vs) s =
      let next = sync_run a timeout_ms vs (sync_step a timeout_ms v s) in
      if s.loop.running then next else s

  -- What waits, after the request was published.
  abbrev pub asking :
      (timeout_ms identifier : ℕ) → Client M T × Result (Unit {0}) → Client M T × Result (Sync M T)
  asking timeout_ms identifier (c, err e) = (c, err e)
  asking timeout_ms identifier (c, ok u) =
      let s : Sync M T = record {
        client = c;
        loop = sync_loop identifier;
        timeout_id = 0;
        is_timeout = false;
        told = [];
      } in
      (c, ok (if timeout_ms == 0 then s else handle_timeout timeout_ms s))

  abbrev pub requested :
      (a timeout_ms identifier : ℕ)
      → Text
      → Text
      → Text
      → Text
      → Client M T × Result ℕ
      → Client M T × Result (Sync M T)
  requested a timeout_ms identifier topic payload correlation reply (c, err e) = (c, err e)
  requested a timeout_ms identifier topic payload correlation reply (c, ok h) =
      let c' = record c { subscribed_list = c.subscribed_list ++ info_of a h ∷ [] } in
      let (q, r) = mqtt_ops.publish_with_reply topic payload reply correlation c'.mq in
      asking timeout_ms identifier (record c' { mq = q }, r)

  -- The subscription to the replies, and the request. `a` is the address of the new `SubscribeInfo`,
  -- and `identifier` the next one of a timeout.
  unfoldable pub sync_asked :
      (a timeout_ms identifier : ℕ)
      → Text
      → Text
      → Text
      → Client M T
      → Client M T × Result (Sync M T)
  unfolding subscribe_mq reply_topic handle_timeout
  sync_asked a timeout_ms identifier topic payload correlation c =
      let reply = reply_topic topic c.reply_id in
      requested a timeout_ms identifier topic payload correlation reply (
        subscribe_mq flex published mqtt_ops tcp_ops reply
          (record c { reply_id = suc c.reply_id % 65536 }))

  -- `AITT::PublishWithReplySync` and `AITT::Impl::PublishWithReplySync`, with what happens while it
  -- waits. The second part has the messages that the user's callback was told.
  unfoldable pub publish_with_reply_sync :
      (a timeout_ms identifier : ℕ)
      → List Happens
      → Text
      → Text
      → AittProtocol
      → Text
      → Client M T
      → Client M T × Result (List AittMsg × SyncEnd)
  unfolding sync_asked sync_run
  publish_with_reply_sync a timeout_ms identifier vs topic payload protocol correlation c =
      let over = ltb message_max (length payload) in
      let (c', asked) = sync_asked a timeout_ms identifier topic payload correlation c in
      let waited : Client M T × Result (List AittMsg × SyncEnd) = elim asked [
        | err e ↦ (c', err e)
        | ok s ↦ let s' = sync_run a timeout_ms vs s in (s'.client, ok (s'.told, sync_end s'))
      ] in
      if over then (c, err invalid_arg) else elim protocol [
        | mqtt ↦ waited
        | tcp ↦ (c, ok ([], not_supported))
        | tcp_secure ↦ (c, ok ([], not_supported))
        | unknown ↦ (c, ok ([], not_supported))
      ]
