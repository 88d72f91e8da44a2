-- ===== src/Rtsp/Module.antt =====
-- modules/rtsp/Module.cc: a stream of a topic, whose publisher tells the subscribers by the discovery
-- whether it is ready, and where.
use aitt.Base.{
  ℕ, suc, ◌==◌, Bool, true, false, List, [], ◌∷◌, Option, none, some, if◌then◌else◌, not, ◌&&◌,
  length, take, Text, codes, text_eq, c_str, ℤ, pos, negsuc, stoi,
}
use aitt.Types.{Result, ok, err, invalid_arg}
use aitt.Flex.{Flexbuffers, str, int}
use aitt.Discovery.{Discovery, add_discovery_cb, remove_discovery_cb, update_discovery_msg}
use aitt.Tcp.Peers.{will_leave_network}
use aitt.Rtsp
use aitt.Rtsp.{
  Info, Player, RtspClient, new_info, set_uri, set_id, set_password, get_complete_uri, new_client,
  set_callbacks, set_fps, set_display, set_player_uri,
}

-- `AittStreamState`: what stands in it is a number, which a message may bring from outside.
abbrev pub init : ℤ
init = pos 0

abbrev pub ready : ℤ
ready = pos 1

abbrev pub playing : ℤ
playing = pos 2

unfoldable pub state_is : ℤ → ℤ → Bool
state_is (pos n) (pos k) = n == k
state_is (negsuc n) (negsuc k) = n == k
state_is _ _ = false

-- `publisher` tells the role. `states` lists what the state callback was called with, the newest
-- first, and `frames` counts the calls of the other one.
pub record Module : Type 0 where
  pub discovery : Discovery
  pub topic : Text
  pub publisher : Bool
  pub discovery_cb : ℕ
  pub info : Info
  pub client : RtspClient
  pub server_state : ℤ
  pub client_state : ℤ
  pub state_cb : Bool
  pub receive_cb : Bool
  pub states : List ℤ
  pub frames : ℕ

-- `UpdateState`
unfoldable pub update_state : (publisher : Bool) → ℤ → Module → Module
update_state publisher state m =
    let m' =
      if publisher then record m { server_state = state } else record m { client_state = state } in
    let same = if publisher then m.publisher else not m.publisher in
    if same && m.state_cb then record m' { states = state ∷ m'.states } else m'

abbrev with_client : RtspClient → Module → Module
with_client c m = record m { client = c }

-- The constructor; `none` is the exception of the client's.
unfoldable pub new_module :
    Player → (publisher : Bool) → (topic : Text) → (last_id cb : ℕ) → Discovery → Option Module
new_module lib publisher topic last_id cb discovery = elim (new_client lib) [
  | none ↦ none
  | some c ↦
      let (d, id) = add_discovery_cb last_id topic cb discovery in
      some (record {
        discovery = d;
        topic = topic;
        publisher = publisher;
        discovery_cb = id;
        info = new_info;
        client = set_callbacks true c;
        server_state = init;
        client_state = init;
        state_cb = false;
        receive_cb = false;
        states = [];
        frames = 0;
      })
]

unfoldable pub delete_module : Player → Module → Module
delete_module lib m = record m {
  client = Rtsp.delete_client lib (set_callbacks false m.client);
  discovery = remove_discovery_cb m.discovery_cb m.discovery;
}

abbrev has_scheme : Text → Bool
has_scheme value = text_eq (take 7 value) (codes "rtsp://")

abbrev pub pictures : Option ℤ → Module → Module × Result (Unit {0})
pictures none m = (m, err invalid_arg)
pictures (some n) m = (with_client (set_fps n m.client) m, ok tt)

unfoldable pub set_config : (key value : Text) → Module → Module × Result (Unit {0})
set_config key value m =
    if m.publisher
    then (if text_eq key (codes "URI")
        then (if has_scheme value
            then (record m { info = set_uri value m.info }, ok tt)
            else (m, err invalid_arg))
        else if text_eq key (codes "ID")
        then (record m { info = set_id value m.info }, ok tt)
        else if text_eq key (codes "Password")
        then (record m { info = set_password value m.info }, ok tt)
        else (m, ok tt))
    else if text_eq key (codes "FPS")
    then pictures (stoi value) m
    else (m, ok tt)

-- `SetConfig` with a pointer.
unfoldable pub set_config_object : Player → Text → ℕ → Module → Module
set_config_object lib key obj m =
    if not m.publisher && text_eq key (codes "display")
    then with_client (set_display lib obj m.client) m
    else m

abbrev pub state_key : Text
state_key = codes "server_state"

-- What `UpdateDiscoveryMsg` publishes.
unfoldable pub stream_msg : Flexbuffers → Module → Text
stream_msg flex m = flex.build_map (
    (state_key, int m.server_state)
    ∷ (codes "URI", str m.info.uri)
    ∷ (codes "ID", str m.info.id)
    ∷ (codes "Password", str m.info.password)
    ∷ [])

unfoldable pub announce : Flexbuffers → (published : Bool) → Module → Module × Result (Unit {0})
unfolding stream_msg
announce flex published m =
    let (d, r) = update_discovery_msg flex published m.topic (stream_msg flex m) m.discovery in
    if m.publisher then (record m { discovery = d }, r) else (m, ok tt)

-- `published` tells whether the announcement returns.
module _ (lib : Player) (flex : Flexbuffers) (published : Bool) where
  unfoldable pub start : Module → Module × Result (Unit {0})
  unfolding announce
  start m =
      if m.publisher
      then announce flex published (update_state true ready m)
      else if state_is m.server_state ready
      then (update_state false playing (with_client (Rtsp.start lib m.client) m), ok tt)
      else (update_state false ready m, ok tt)

  unfoldable pub stop : Module → Module × Result (Unit {0})
  unfolding announce
  stop m =
      let m' =
        if state_is m.client_state playing then with_client (Rtsp.stop lib m.client) m else m in
      if m.publisher
      then announce flex published (update_state true init m)
      else (update_state false init m', ok tt)

-- AITT_ERROR_NOT_SUPPORTED at every role.
unfoldable pub push : Module → Module × Bool
push m = (m, false)

-- What is read of a message.
abbrev read_text : Flexbuffers → Text → Text → Text
read_text flex msg key = c_str (flex.as_string (flex.read_field msg key))

unfoldable pub read_info : Flexbuffers → Text → Info
read_info flex msg = record {
  uri = read_text flex msg (codes "URI");
  id = read_text flex msg (codes "ID");
  password = read_text flex msg (codes "Password");
}

module _ (lib : Player) where
  -- A client leaves the network, whichever it is.
  unfoldable pub left : Module → Module
  left m =
      if state_is m.client_state playing
      then update_state false ready (with_client (Rtsp.stop lib m.client) m)
      else update_state false init m

  -- What the states call for, after the message was read.
  unfoldable pub follow : Module → Module
  follow m =
      if state_is m.server_state ready
      then (if state_is m.client_state ready
          then update_state false playing (with_client (Rtsp.start lib m.client) m)
          else m)
      else if state_is m.server_state init && state_is m.client_state playing
      then update_state false ready (with_client (Rtsp.stop lib m.client) m)
      else m

  -- With the place of the publisher: `false` is an exception, `std::out_of_range`.
  abbrev pub located : Option Text → Module → Module × Bool
  located none m = (m, false)
  located (some uri) m = (follow (with_client (set_player_uri lib uri m.client) m), true)

  -- A message that was read.
  unfoldable pub heard : ℤ → Info → Module → Module × Bool
  unfolding follow
  heard state info m =
      located (get_complete_uri info) (record (update_state true state m) { info = info })

  unfoldable pub discovery_message_callback :
      Flexbuffers → (client_id status msg : Text) → Module → Module × Bool
  unfolding left heard read_info
  discovery_message_callback flex client_id status msg m =
      if m.publisher
      then (m, true)
      else if text_eq status will_leave_network
      then (left m, true)
      else if not (length (flex.read_keys msg) == 4)
      then (m, true)
      else heard (flex.as_int64 (flex.read_field msg state_key)) (read_info flex msg) m

-- `PlayerInterruptedCB` and `VideoCapturedCB`, through the callbacks that the constructor sets.
unfoldable pub player_interrupted : Module → Module
player_interrupted m = if m.client.state_cb then update_state m.publisher init m else m

unfoldable pub video_captured : (frame : ℕ) → Module → Module
video_captured frame m =
    if not (frame == 0) && m.client.receive_cb && m.receive_cb
    then record m { frames = suc m.frames }
    else m

unfoldable pub set_state_callback : Bool → Module → Module
set_state_callback set m = if m.publisher then m else record m { state_cb = set }

unfoldable pub set_receive_callback : Bool → Module → Module
set_receive_callback set m = if m.publisher then m else record m { receive_cb = set }
