-- ===== src/Tests/Peering.antt =====
-- The theorems on modules/tcp/Module.cc, common/AittDiscovery.cc and src/MQDiscoveryHandler.cc at
-- concrete peers.
use aitt.Base.{
  ◌≤◌, ◌≡◌, ◌≢◌, refl, Bool, true, false, List, [], ◌∷◌, ◌++◌, none, some, if◌then◌else◌, length,
  Text, codes, pos, c_str, arith, lookup, insert, number_key, text_key, text_eq, inl, inr,
}
use aitt.Types.{mqtt, ok, err, runtime_error}
use aitt.Msg.{AittMsg}
use aitt.Flex.{Item, num}
use aitt.Tcp.Stream.{Source}
use aitt.Tcp.Info.{pack_msg_info, pack_fields}
use aitt.Tcp.Info.Laws.{as_received}
use aitt.Tcp.Peers.{ConnectInfo, PortInfo, Peers, update_topics, read_connect_info, host_key, zeros}
use aitt.Tcp.Peers.Table.{info_at, merged, Announces, update_topics-announced, update_topics-frame}
use aitt.Tcp.Publish.{publish_full}
use aitt.Tcp.Publish.Laws.{publish_full-reached, targets, reached, all_reached}
use aitt.Tcp.Server.{
  Callback, ListenInfo, Server, NewServer, accepts, receives, find_topic, subscribe, unsubscribe,
}
use aitt.Tcp.Server.Receiving.{continue, receive_data}
use aitt.Tcp.Server.Laws.{announcement, new_listener, unsubscribe-subscribe_new}
use aitt.Tcp.Server.Delivery.{packet, told, receive_data-packet}
use aitt.Tests.Ciphers.{padding}
use aitt.Tests.Buffers.{buffers, buffers-IsFlexbuffers, write_fields, write_field, write_bytes}
use aitt.Tests.Lines.{gots, gots-Gives, length-gots, no_memory}

abbrev callback : Callback
callback = record { addr = 5; cb = 50; cbdata = 51 }

abbrev other_callback : Callback
other_callback = record { addr = 6; cb = 60; cbdata = 61 }

abbrev listener : ListenInfo
listener = record {
  topic = codes "t";
  cb_list = other_callback ∷ [];
  client_list = 9 ∷ [];
  port = 4000;
  handle = 8;
  key = [];
  iv = [];
}

abbrev server : Server
server = record {
  subscribe_table = (70, listener) ∷ [];
  subscribe_handles = (6, (other_callback, 70)) ∷ [];
  watches = (8, accepts 70) ∷ (9, receives 70) ∷ [];
  announced = [];
}

abbrev created : NewServer
created = record { addr = 71; port = 4001; handle = 10; key = []; iv = [] }

no_handle : lookup 5 server.subscribe_handles ≡ none
unfolding lookup
no_handle = refl

found : find_topic (codes "t") server.subscribe_table ≡ some (70, listener)
unfolding find_topic text_eq
found = refl

not_found : find_topic (codes "u") server.subscribe_table ≡ none
unfolding find_topic text_eq
not_found = refl

held : lookup 70 server.subscribe_table ≡ some listener
unfolding lookup
held = refl

not_held : lookup 71 server.subscribe_table ≡ none
unfolding lookup
not_held = refl

not_watched : lookup 10 server.watches ≡ none
unfolding lookup
not_watched = refl

unsubscribe-subscribe_new_example :
    let s1 =
      (subscribe buffers (codes "ip") false true callback (some created) (codes "u") server).0 in
    let r = unsubscribe buffers (codes "ip") false true 5 s1 in
    (r.1 ≡ ok 51)
    × (r.0.subscribe_table ≡ server.subscribe_table)
    × (r.0.subscribe_handles ≡ server.subscribe_handles)
    × (r.0.watches ≡ server.watches)
    × (lookup 71 s1.subscribe_table ≡ some (new_listener callback (codes "u") created))
    × (r.0.announced
        ≡ announcement buffers (codes "ip") false server.subscribe_table
          ∷ announcement buffers
              (codes "ip")
              false
              (insert 71 (new_listener callback (codes "u") created) server.subscribe_table)
          ∷ server.announced)
unsubscribe-subscribe_new_example =
    unsubscribe-subscribe_new buffers (codes "ip") false callback (codes "u") server no_handle
      created not_found not_held not_watched

abbrev news : AittMsg
news = record {
  topic = codes "t";
  correlation = [];
  reply_topic = [];
  sequence = pos 0;
  end_sequence = true;
  id = 0;
  protocol = mqtt;
}

abbrev info : Text
info = pack_msg_info buffers news false

info_len : length info ≤ 40
unfolding pack_msg_info write_fields write_field write_bytes c_str pack_fields
info_len = omega arith

abbrev line : Source
line = record { answers = gots 60; input = packet buffers news false (codes "hi") ++ codes "more" }

named : c_str (codes "t") ≢ []
unfolding c_str
named e = ground arith

-- Two callbacks of one listener.
abbrev busy_listener : ListenInfo
busy_listener = record listener { cb_list = other_callback ∷ callback ∷ [] }

abbrev busy : Server
busy = record server { subscribe_table = (70, busy_listener) ∷ [] }

receive_data-packet_example :
    (source' : Source) × (receive_data buffers false padding no_memory false 9 70 line busy
      ≡ some (record {
        server = busy;
        calls =
            told (as_received news false) (codes "hi") other_callback
            ∷ told (as_received news false) (codes "hi") callback
            ∷ [];
        source = source';
        answer = continue;
      }))
    × (source'.input ≡ codes "more")
unfolding lookup
receive_data-packet_example =
    receive_data-packet buffers buffers-IsFlexbuffers padding no_memory 9 70 busy news false
      (codes "hi") (omega arith) named busy_listener (codes "more") line refl
      (omega (arith, info_len)) (omega arith) refl (gots-Gives 60)
      (omega (arith, info_len, length-gots 60))

abbrev port_info : PortInfo
port_info = record {
  info = record { port = 4000; num_of_cb = 1; secure = false; key = []; iv = [] };
  client = none;
}

abbrev peers : Peers
peers = record {
  client_table = (codes "c1", codes "h1") ∷ (codes "c2", codes "h2") ∷ [];
  publish_table =
      (codes "t", (codes "c1", port_info) ∷ (codes "c2", port_info) ∷ [])
      ∷ (codes "u", (codes "c2", port_info) ∷ [])
      ∷ [];
}

same_topic : Text → Text → Bool
unfolding text_eq
same_topic a b = text_eq a b

-- No connection to the second host.
abbrev reaches : Text → ConnectInfo → Bool
reaches h i = false

publish_full-reached_example :
    let r = publish_full buffers same_topic reaches news (codes "hi") false peers in
    let hosts = targets (λ t. same_topic t (codes "t")) peers.publish_table in
    (r.0.1 ≡ reached reaches peers.client_table info (codes "hi") hosts)
    × (r.1 ≡ (
        if all_reached reaches peers.client_table info (codes "hi") hosts
        then ok tt
        else err runtime_error))
    × (r.0.0.client_table ≡ peers.client_table)
publish_full-reached_example =
    publish_full-reached buffers same_topic reaches news (codes "hi") false peers

-- Every topic of the message has the same port and number of callbacks.
abbrev ports : Text → List Item
ports t = num 4005 ∷ num 2 ∷ []

abbrev announced_info : ConnectInfo
announced_info = record {
  port = 4005;
  num_of_cb = 2;
  secure = false;
  key = zeros 32;
  iv = zeros 16;
}

ports_read : read_connect_info buffers false (ports (codes "t")) ≡ some announced_info
unfolding read_connect_info
ports_read = ground arith

text_differs : (c_str (codes "t") ≢ host_key) × (c_str (codes "u") ≢ codes "t")
unfolding c_str
text_differs = ((λ e. ground arith), (λ e. ground arith))

t_same : c_str (codes "t") ≡ codes "t"
unfolding c_str
t_same = refl

update_topics-announced_example :
    info_at
      (c_str (codes "t"))
      (codes "c1")
      (update_topics buffers false (codes "c1") ports ([] ++ codes "t" ∷ []) peers.publish_table)
    ≡ some (merged announced_info (info_at (c_str (codes "t")) (codes "c1") peers.publish_table))
update_topics-announced_example =
    update_topics-announced buffers false (codes "c1") ports [] (codes "t") [] peers.publish_table
      announced_info text_differs.0 (λ a. a) (λ a. a) tt ports_read

not_announced : ¬ (
    Announces buffers false (codes "c1") ports (codes "t") (codes "u" ∷ [])
    × (codes "c1" ≡ codes "c1"))
not_announced (inl (e, n), h) = text_differs.1 e
not_announced (inr a, h) = a

-- The client does not announce "t" any more, but its entry stays.
update_topics-frame_example :
    info_at
      (codes "t")
      (codes "c1")
      (update_topics buffers false (codes "c1") ports (codes "u" ∷ []) peers.publish_table)
    ≡ info_at (codes "t") (codes "c1") peers.publish_table
update_topics-frame_example =
    update_topics-frame buffers false (codes "c1") ports (codes "u" ∷ []) peers.publish_table
      (codes "t") (codes "c1") not_announced
