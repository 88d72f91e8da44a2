-- ===== src/Impl.antt =====
-- src/AITTImpl.cc and the size checks of src/AITT.cc: the client, over the MQTT connection, the
-- discovery of MQTT subscribers and the two TCP transports.
pub mod Laws
pub mod Publishing
pub mod Connecting
pub mod Sync
use aitt.Base.{
  ℕ, suc, ◌+◌, ◌==◌, ◌/◌, ◌%◌, Bool, true, false, ◌||◌, not, List, [], ◌∷◌, ◌++◌, Option, none,
  some, if◌then◌else◌, ltb, length, Text, codes, has_byte, ℤ, pos, negsuc, to_string,
}
use aitt.Types.{
  AittProtocol, unknown, mqtt, tcp, tcp_secure, Result, ok, err, invalid_arg, invalid_state,
  no_data_err, message_max, response_postfix,
}
use aitt.Flex.{Flexbuffers}
use aitt.MqDiscovery.{MqDiscovery}
use aitt.MqDiscovery

-- What the client uses of an `MQ` or an `AittTransport`: each operation takes the state of the
-- component and gives the new one, and returns or throws.
pub record Transport (S : Type 0) : Type 0 where
  pub publish : Text → Text → S → S × Result (Unit {0})
  pub publish_with_reply : Text → Text → Text → Text → S → S × Result (Unit {0})
  pub subscribe : Text → S → S × Result ℕ
  pub unsubscribe : ℕ → S → S × Result ℕ
  pub count_subscriber : Text → S → ℕ

-- `SubscribeInfo`, with its address.
pub record SubscribeInfo : Type 0 where
  pub addr : ℕ
  pub protocol : AittProtocol
  pub handle : ℕ

pub record Client (M T : Type 0) : Type 0 where
  pub running : Bool
  pub subscribed_list : List SubscribeInfo
  pub mq : M
  pub mq_discovery : MqDiscovery
  pub tcp_module : T
  pub secure_module : T
  pub reply_id : ℕ

-- AITT_TYPE_MQTT, AITT_TYPE_TCP and AITT_TYPE_TCP_SECURE are bits of a set of protocols.
abbrev pub has_mqtt : ℕ → Bool
has_mqtt n = n % 2 == 1

abbrev pub has_tcp : ℕ → Bool
has_tcp n = n / 2 % 2 == 1

abbrev pub has_secure : ℕ → Bool
has_secure n = n / 4 % 2 == 1

-- `std::find` by address.
unfoldable pub find_info : ℕ → List SubscribeInfo → Option SubscribeInfo
find_info a [] = none
find_info a (i ∷ is) = if i.addr == a then some i else find_info a is

-- `erase` of what `find_info` finds.
unfoldable pub erase_info : ℕ → List SubscribeInfo → List SubscribeInfo
erase_info a [] = []
erase_info a (i ∷ is) = let rest = erase_info a is in if i.addr == a then is else i ∷ rest

-- `topic + RESPONSE_POSTFIX + std::to_string(reply_id)`
unfoldable pub reply_topic : Text → ℕ → Text
reply_topic topic n = topic ++ response_postfix ++ to_string (pos n)

-- `published` tells whether an announcement of the MQTT subscribers, from a state, returns.
module _ {M T : Type 0} (flex : Flexbuffers) (published : MqDiscovery → Bool)
    (mqtt_ops : Transport M) (tcp_ops : Transport T) where
  -- One transport, if its bit is set; the others are not reached after an exception.
  abbrev step_mqtt :
      Bool
      → (M → M × Result (Unit {0}))
      → Client M T × Result (Unit {0})
      → Client M T × Result (Unit {0})
  step_mqtt false f r = r
  step_mqtt true f (c, err e) = (c, err e)
  step_mqtt true f (c, ok u) = let r = f c.mq in (record c { mq = r.0 }, r.1)

  abbrev step_tcp :
      Bool
      → (T → T × Result (Unit {0}))
      → Client M T × Result (Unit {0})
      → Client M T × Result (Unit {0})
  step_tcp false f r = r
  step_tcp true f (c, err e) = (c, err e)
  step_tcp true f (c, ok u) = let r = f c.tcp_module in (record c { tcp_module = r.0 }, r.1)

  abbrev step_secure :
      Bool
      → (T → T × Result (Unit {0}))
      → Client M T × Result (Unit {0})
      → Client M T × Result (Unit {0})
  step_secure false f r = r
  step_secure true f (c, err e) = (c, err e)
  step_secure true f (c, ok u) =
      let r = f c.secure_module in (record c { secure_module = r.0 }, r.1)

  -- `AITT::Publish` and `AITT::Impl::Publish`.
  unfoldable pub publish : Text → Text → ℕ → Client M T → Client M T × Result (Unit {0})
  publish topic payload protocols c =
      if ltb message_max (length payload)
      then (c, err invalid_arg)
      else if not c.running
      then (c, err invalid_state)
      else if ltb 7 protocols
      then (c, err invalid_arg)
      else step_secure (has_secure protocols) (tcp_ops.publish topic payload) (
          step_tcp (has_tcp protocols) (tcp_ops.publish topic payload)
            (step_mqtt (has_mqtt protocols) (mqtt_ops.publish topic payload) (c, ok tt)))

  abbrev with_mqtt : Client M T → M × Result ℕ → Client M T × Result ℕ
  with_mqtt c r = (record c { mq = r.0 }, r.1)

  abbrev with_tcp : Client M T → T × Result ℕ → Client M T × Result ℕ
  with_tcp c r = (record c { tcp_module = r.0 }, r.1)

  abbrev with_secure : Client M T → T × Result ℕ → Client M T × Result ℕ
  with_secure c r = (record c { secure_module = r.0 }, r.1)

  abbrev then_discovery :
      (ℕ → MqDiscovery → MqDiscovery × Result (Unit {0}))
      → Client M T × Result ℕ
      → Client M T × Result ℕ
  then_discovery f (c, err e) = (c, err e)
  then_discovery f (c, ok h) =
      let r = f h c.mq_discovery in
      (record c { mq_discovery = r.0 }, elim r.1 [ ok u ↦ ok h | err e ↦ err e ])

  -- `SubscribeMQ`
  unfoldable pub subscribe_mq : Text → Client M T → Client M T × Result ℕ
  subscribe_mq topic c =
      then_discovery (λ h. MqDiscovery.subscribe flex (published c.mq_discovery) h topic)
        (with_mqtt c (mqtt_ops.subscribe topic c.mq))

  unfoldable pub subscribe_by : AittProtocol → Text → Client M T → Client M T × Result ℕ
  unfolding subscribe_mq
  subscribe_by mqtt topic c = subscribe_mq topic c
  subscribe_by tcp topic c = with_tcp c (tcp_ops.subscribe topic c.tcp_module)
  subscribe_by tcp_secure topic c = with_secure c (tcp_ops.subscribe topic c.secure_module)
  subscribe_by unknown topic c = (c, err invalid_arg)

  abbrev listed : AittProtocol → ℕ → Client M T × Result ℕ → Client M T × Result ℕ
  listed protocol a (c, err e) = (c, err e)
  listed protocol a (c, ok h) = (
    record c {
      subscribed_list =
          c.subscribed_list ++ record { addr = a; protocol = protocol; handle = h } ∷ [];
    },
    ok a,
  )

  -- `a` is the address of the new `SubscribeInfo`, which is also the id that is returned.
  unfoldable pub subscribe : AittProtocol → ℕ → Text → Client M T → Client M T × Result ℕ
  unfolding subscribe_by
  subscribe protocol a topic c = listed protocol a (subscribe_by protocol topic c)

  -- The part of `Unsubscribe` and `UnsubscribeAll` that takes one subscription away from its
  -- transport. A protocol that is not known does nothing.
  unfoldable pub release : SubscribeInfo → Client M T → Client M T × Result ℕ
  release i c = elim i.protocol [
    | mqtt ↦
        then_discovery (λ h. MqDiscovery.unsubscribe flex (published c.mq_discovery) i.handle)
          (with_mqtt c (mqtt_ops.unsubscribe i.handle c.mq))
    | tcp ↦ with_tcp c (tcp_ops.unsubscribe i.handle c.tcp_module)
    | tcp_secure ↦ with_secure c (tcp_ops.unsubscribe i.handle c.secure_module)
    | unknown ↦ (c, ok 0)
  ]

  abbrev unlisted : ℕ → Client M T × Result ℕ → Client M T × Result ℕ
  unlisted a (c, err e) = (c, err e)
  unlisted a (c, ok u) = (record c { subscribed_list = erase_info a c.subscribed_list }, ok u)

  unfoldable pub unsubscribe : ℕ → Client M T → Client M T × Result ℕ
  unfolding find_info release erase_info
  unsubscribe a c = elim (find_info a c.subscribed_list) [
    | none ↦ (c, err no_data_err)
    | some i ↦ unlisted a (release i c)
  ]

  -- The loop of `UnsubscribeAll`. An exception leaves it before the list is cleared.
  unfoldable pub release_all : List SubscribeInfo → Client M T → Client M T × Result (Unit {0})
  unfolding release
  release_all [] c = (record c { subscribed_list = [] }, ok tt)
  release_all (i ∷ is) c =
      let rest = release_all is (release i c).0 in
      elim (release i c).1 [ ok u ↦ rest | err e ↦ ((release i c).0, err e) ]

  unfoldable pub unsubscribe_all : Client M T → Client M T × Result (Unit {0})
  unfolding release_all
  unsubscribe_all c = release_all c.subscribed_list c

  -- `none` is AITT_ERROR_NOT_SUPPORTED. The bytes are "+" and "#".
  unfoldable pub count_subscriber :
      (compare_topic : Text → Text → Bool) → Text → ℕ → Client M T → Option ℕ
  count_subscriber compare_topic topic protocols c =
      if has_byte 43 topic || has_byte 35 topic
      then none
      else some (
          (if has_mqtt protocols
            then MqDiscovery.count_subscriber compare_topic topic c.mq_discovery
            else 0)
          + (if has_tcp protocols then tcp_ops.count_subscriber topic c.tcp_module else 0)
          + (if has_secure protocols then tcp_ops.count_subscriber topic c.secure_module else 0))

  -- The request itself. At an unknown protocol `Subscribe` has thrown before.
  abbrev pub asked :
      ℕ → Text → Text → Text → Text → AittProtocol → Client M T × Result ℕ → Client M T × Result ℕ
  asked a topic payload reply correlation protocol (c, err e) = (c, err e)
  asked a topic payload reply correlation mqtt (c, ok id) =
      let r = mqtt_ops.publish_with_reply topic payload reply correlation c.mq in
      (record c { mq = r.0 }, elim r.1 [ ok u ↦ ok id | err e ↦ err e ])
  asked a topic payload reply correlation tcp (c, ok id) =
      let r = tcp_ops.publish_with_reply topic payload reply correlation c.tcp_module in
      (record c { tcp_module = r.0 }, elim r.1 [ ok u ↦ ok id | err e ↦ err e ])
  asked a topic payload reply correlation tcp_secure (c, ok id) =
      let r = tcp_ops.publish_with_reply topic payload reply correlation c.secure_module in
      (record c { secure_module = r.0 }, elim r.1 [ ok u ↦ ok id | err e ↦ err e ])
  asked a topic payload reply correlation unknown (c, ok id) = (c, err invalid_arg)

  -- `AITT::PublishWithReply` and `AITT::Impl::PublishWithReply`. `reply_id` is an `unsigned short`.
  unfoldable pub publish_with_reply :
      ℕ → Text → Text → AittProtocol → Text → Client M T → Client M T × Result ℕ
  unfolding subscribe reply_topic
  publish_with_reply a topic payload protocol correlation c =
      if ltb message_max (length payload)
      then (c, err invalid_arg)
      else let reply = reply_topic topic c.reply_id in
        asked a topic payload reply correlation protocol
          (subscribe protocol a reply (record c { reply_id = suc c.reply_id % 65536 }))
