-- ===== src/Tests/Playing.antt =====
-- The theorems on modules/rtsp at a concrete publisher and a concrete subscriber.
use aitt.Base.{◌≡◌, refl, true, false, List, [], ◌∷◌, codes, has_byte, All, pos, arith}
use aitt.Discovery.{Discovery, join_network}
use aitt.Rtsp
use aitt.Rtsp.{Info, Player, player_idle, RtspClient, get_complete_uri, set_player_uri, new_info}
use aitt.Rtsp.Module.{
  Module, init, ready, playing, start, stop, stream_msg, discovery_message_callback, state_is,
}
use aitt.Rtsp.Playing.{
  Use, starts, leaves, hears, IsFair, IsAnnounced, IsPlaying, used_all, used_all-IsPlaying,
}
use aitt.Rtsp.Meeting.{start-heard}
use aitt.Tests.Buffers.{buffers, buffers-IsFlexbuffers}

abbrev player : Player
player = record {
  returns = λ before call. 0;
  made = λ before. 7;
  state = λ before. player_idle;
  source = λ before. 11;
}

abbrev stream_discovery : Discovery
stream_discovery = record {
  is_running = true;
  id = codes "b";
  callback_handle = 4;
  discovery_map = [];
  callbacks = [];
  calls = [];
}

abbrev place : Info
place = record { uri = codes "rtsp://h/s"; id = codes "u"; password = codes "p" }

abbrev stopped_client : RtspClient
stopped_client = record {
  is_start = false;
  player = 7;
  display = 5;
  fps = pos 2;
  capture_source_id = 0;
  receive_cb = true;
  state_cb = true;
  calls = [];
}

abbrev subscriber : Module
subscriber = record {
  discovery = stream_discovery;
  topic = codes "t";
  publisher = false;
  discovery_cb = 1;
  info = new_info;
  client = stopped_client;
  server_state = init;
  client_state = ready;
  state_cb = true;
  receive_cb = true;
  states = [];
  frames = 0;
}

abbrev publisher : Module
publisher = record subscriber { publisher = true; info = place; client_state = init }

start-heard_example :
    let p' = (start player buffers true publisher).0 in
    let m' =
      (discovery_message_callback player buffers
        (codes "a")
        join_network
        (stream_msg buffers p')
        subscriber).0 in
    (m'.client_state ≡ playing)
    × (m'.client
        ≡ Rtsp.start player (set_player_uri player (codes "rtsp://u:p@h/s") subscriber.client))
unfolding get_complete_uri has_byte
start-heard_example =
    start-heard buffers buffers-IsFlexbuffers player true (codes "a") (codes "rtsp://u:p@h/s")
      publisher subscriber refl refl refl refl refl refl refl

place-IsAnnounced : IsAnnounced ready place
unfolding IsAnnounced get_complete_uri state_is
place-IsAnnounced = (refl, λ e. ground arith)

abbrev use_list : List Use
use_list = starts ∷ hears ready place ∷ leaves ∷ hears ready place ∷ []

use_list-IsFair : All IsFair use_list
unfolding IsFair
use_list-IsFair = (tt, (place-IsAnnounced, (tt, (place-IsAnnounced, tt))))

used_all-IsPlaying_example :
    IsPlaying (used_all player buffers use_list subscriber)
    × ((stop player buffers true (used_all player buffers use_list subscriber)).0.client.is_start
        ≡ false)
used_all-IsPlaying_example =
    used_all-IsPlaying player buffers use_list subscriber refl refl use_list-IsFair
