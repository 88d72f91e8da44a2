-- ===== src/Tests/Clients.antt =====
-- The theorems on common/AittDiscovery.cc, src/MQDiscoveryHandler.cc, src/AITTImpl.cc and the options
-- at concrete clients.
use aitt.Base.{
  ℕ, suc, ◌+◌, ◌≡◌, ◌≢◌, refl, Bool, true, false, List, [], ◌∷◌, ◌++◌, none, some, Text, codes,
  arith, All, ltb, length, lookup, number_key, text_key, text_eq, IsOrdered, After, has_byte,
  text_lt,
}
use aitt.Types.{message_max, ok, err, mqtt_err, discovery_topic_base, tcp}
use aitt.MqDiscovery
use aitt.MqDiscovery.{MqDiscovery, topic_items, count_topics, count_mine, count_subscriber}
use aitt.MqDiscovery.Count.{counted, count-announced}
use aitt.Discovery
use aitt.Discovery.{Discovery, discovery_msg, leave_notices, status_key, Call, stopped}
use aitt.Discovery.Reads.{told, discovery_message_callback-discovery_msg}
use aitt.Discovery.Laws.{
  subscriptions, Event, starts, changes, restarts, stops, run_all, IsSubscribed,
  run_all-IsSubscribed,
}
use aitt.Impl
use aitt.Impl.{
  Transport, SubscribeInfo, Client, has_mqtt, has_tcp, has_secure, reply_topic, unsubscribe_all,
  subscribe_by, find_info, release,
}
use aitt.Impl.Publishing.{Request, after, accepted, Noted, noting, topics_used, reply_topic-differs}
use aitt.Options.{Handle, OptionKind, success, option_set, set_service_id}
use aitt.Tests.Buffers.{buffers, buffers-IsFlexbuffers}

same_topic : Text → Text → Bool
unfolding text_eq
same_topic a b = text_eq a b

abbrev sender : MqDiscovery
sender = record {
  id = codes "a";
  my_subscribe_table = (1, codes "x") ∷ (2, codes "y") ∷ [];
  remote_subscribe_table = [];
  announced = [];
}

abbrev other : MqDiscovery
other = record {
  id = codes "b";
  my_subscribe_table = (3, codes "x") ∷ [];
  remote_subscribe_table = (codes "a", codes "x" ∷ []) ∷ (codes "c", codes "x" ∷ []) ∷ [];
  announced = [];
}

other-IsOrdered : IsOrdered other.remote_subscribe_table
unfolding IsOrdered After text_lt
other-IsOrdered = ((refl, tt), (tt, tt))

count-announced_example :
    let msg = buffers.build_vector (topic_items sender.my_subscribe_table) in
    let d' =
      MqDiscovery.discovery_message_callback buffers (codes "a") (codes "connected") msg other in
    (count_subscriber same_topic (codes "x") d'
        + counted same_topic (codes "x") (lookup (codes "a") other.remote_subscribe_table)
      ≡ count_subscriber same_topic (codes "x") other
        + count_mine same_topic (codes "x") sender.my_subscribe_table)
    × IsOrdered d'.remote_subscribe_table
count-announced_example =
    count-announced same_topic (codes "x") buffers sender other (codes "a") (codes "connected")
      buffers-IsFlexbuffers other-IsOrdered (λ e. ground arith) (λ e. ground arith)

no_entry : lookup 9 sender.my_subscribe_table ≡ none
unfolding lookup
no_entry = refl

abbrev discovery : Discovery
discovery = record {
  is_running = true;
  id = codes "b";
  callback_handle = 4;
  discovery_map = [];
  callbacks = (1, (codes "MQTT", 100)) ∷ (2, (codes "tcp", 101)) ∷ [];
  calls = Call.subscribes [] ∷ [];
}

abbrev blobs : List (Text × Text)
blobs = (codes "MQTT", codes "m") ∷ (codes "tcp", codes "n") ∷ []

blobs-IsOrdered : IsOrdered blobs
unfolding IsOrdered After text_lt
blobs-IsOrdered = ((refl, tt), (tt, tt))

no_status : lookup status_key blobs ≡ none
unfolding lookup text_eq
no_status = refl

no_slash : has_byte 47 (codes "a") ≡ false
unfolding has_byte
no_slash = refl

discovery_message_callback-discovery_msg_example :
    Discovery.discovery_message_callback buffers
      (discovery_topic_base ++ codes "a")
      (some (discovery_msg buffers blobs))
      discovery
    ≡ some (told (codes "a") discovery.callbacks blobs)
discovery_message_callback-discovery_msg_example =
    discovery_message_callback-discovery_msg buffers buffers-IsFlexbuffers (codes "a") blobs
      discovery blobs-IsOrdered no_status (λ e. ground arith) no_slash

abbrev events : List Event
events = restarts true (ok 5) ∷ stops stopped ∷ starts true true ∷ changes true (ok 6) ∷ []

subscribed : IsSubscribed discovery
unfolding IsSubscribed subscriptions
subscribed = refl

run_all-IsSubscribed_example : IsSubscribed (run_all events discovery)
run_all-IsSubscribed_example =
    run_all-IsSubscribed events discovery
      ((refl, (λ e. ground arith)), (refl, (tt, ((λ e. ground arith), tt)))) subscribed

abbrev always : MqDiscovery → Bool
always d = true

-- A transport that gives the handles 1, 2, … and lets every one of them go.
abbrev counting : Transport ℕ
counting = record {
  publish = λ topic payload n. (n + 10, ok tt);
  publish_with_reply = λ topic payload reply correlation n. (n + 100, ok tt);
  subscribe = λ topic n. (suc n, ok (suc n));
  unsubscribe = λ h n. (n, ok 0);
  count_subscriber = λ topic n. n;
}

abbrev client : Client ℕ ℕ
client = record {
  running = true;
  subscribed_list = record { addr = 7; protocol = tcp; handle = 1 } ∷ [];
  mq = 0;
  mq_discovery = sender;
  tcp_module = 1;
  secure_module = 0;
  reply_id = 65535;
}

sub_ok : (Impl.subscribe buffers always counting counting tcp 8 (codes "t") client).1 ≡ ok 8
unfolding Impl.subscribe subscribe_by
sub_ok = refl

unsub_ok :
    (Impl.unsubscribe buffers always counting counting 8
      (Impl.subscribe buffers always counting counting tcp 8 (codes "t") client).0).1
    ≡ ok 0
unfolding Impl.subscribe subscribe_by Impl.unsubscribe find_info release
unsub_ok = refl

-- A transport that throws.
abbrev failing : Transport ℕ
failing = record counting { unsubscribe = λ h n. (n, err mqtt_err) }

unsub_throws : (Impl.unsubscribe buffers always counting failing 7 client).1 ≡ err mqtt_err
unfolding Impl.unsubscribe find_info release
unsub_throws = refl

pub_ok : (Impl.publish buffers always counting counting (codes "t") (codes "p") 6 client).1 ≡ ok tt
unfolding Impl.publish
pub_ok = ground arith

abbrev request : ℕ → Request
request a = record {
  a = a;
  topic = codes "t";
  payload = codes "p";
  protocol = tcp;
  correlation = [];
}

abbrev noted_client : Client (Noted ℕ) (Noted ℕ)
noted_client = record {
  running = true;
  subscribed_list = [];
  mq = (0, []);
  mq_discovery = sender;
  tcp_module = (1, []);
  secure_module = (0, []);
  reply_id = 65535;
}

one_request : accepted (request 31 ∷ []) ≡ 1
unfolding accepted
one_request = ground arith

not_long : ltb message_max (length (codes "p")) ≡ false
not_long = refl

-- Three requests over TCP, at the end of the counter.
reply_topic-differs_example :
    let used = topics_used buffers always counting counting in
    let c' =
      after buffers always
        (noting counting)
        (noting counting)
        (request 30 ∷ request 31 ∷ [])
        noted_client in
    (used (request 30) noted_client ≢ [])
    × (used (request 32) c' ≢ [])
    × All (λ t. All (λ t'. t ≢ t') (used (request 32) c')) (used (request 30) noted_client)
reply_topic-differs_example =
    reply_topic-differs buffers always counting counting (request 30) (request 32) (request 31 ∷ [])
      noted_client refl (λ e. absurd (ground arith)) (λ e. absurd (ground arith)) not_long not_long
      (omega arith) (omega (arith, one_request))

abbrev handle : Handle
handle = record {
  my_ip = none;
  option = record {
    clean_session = false;
    use_custom_broker = true;
    service_id = [];
    location_id = [];
    root_ca = [];
    custom_rw_file = [];
  };
}

set_ok : (option_set OptionKind.service_id (some (codes "svc")) handle).1 ≡ success
unfolding option_set set_service_id
set_ok = refl

no_nul : has_byte 0 (codes "svc") ≡ false
unfolding has_byte
no_nul = refl

-- Without a custom broker.
abbrev plain : Handle
plain = record handle { option = record (handle.option) { use_custom_broker = false } }

set_refused : (option_set OptionKind.service_id (some (codes "svc")) plain).1 ≢ success
unfolding option_set set_service_id
set_refused e = ground arith
