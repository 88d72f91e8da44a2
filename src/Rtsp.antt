-- ===== src/Rtsp.antt =====
-- modules/rtsp: a stream over RTSP. RTSPInfo.cc is what a publisher tells of it, and RTSPClient.cc
-- plays it with the player of the platform, which is not in the repository: its calls are recorded,
-- and its answers are given by a record.
pub mod Module
pub mod Fitting
pub mod Playing
pub mod Meeting
use aitt.Base.{
  ℕ, ◌==◌, Bool, true, false, ◌||◌, List, [], ◌∷◌, ◌++◌, Option, none, some, if◌then◌else◌, not,
  ltb, length, take, drop, is_empty, Text, codes, ℤ, pos,
}

pub record Info : Type 0 where
  pub uri : Text
  pub id : Text
  pub password : Text

unfoldable pub new_info : Info
new_info = record { uri = []; id = []; password = [] }

unfoldable pub set_uri : Text → Info → Info
set_uri uri i = record i { uri = uri }

unfoldable pub set_id : Text → Info → Info
set_id id i = record i { id = id }

unfoldable pub set_password : Text → Info → Info
set_password password i = record i { password = password }

-- `none` is `std::out_of_range`, which `insert` throws.
unfoldable pub get_complete_uri : Info → Option Text
get_complete_uri i =
    if is_empty i.id || is_empty i.password
    then some i.uri
    else if ltb (length i.uri) 7
    then none
    else some (take 7 i.uri ++ i.id ++ codes ":" ++ i.password ++ codes "@" ++ drop 7 i.uri)

-- `timeout_add` has the number of pictures a second; the interval is 1000 divided by it, which is
-- undefined at 0.
pub data Call : Type 0 where
  create interrupted_cb_set destroy get_state prepare_async player_start player_stop : Call
  capture_video : Call
  display_set : (display : ℕ) → Call
  uri_set : (uri : Text) → Call
  timeout_add : (fps : ℤ) → Call
  source_remove : (id : ℕ) → Call

-- `PLAYER_STATE_NONE` and the other states.
pub data PlayerState : Type 0 where
  player_none player_idle player_ready player_playing player_paused : PlayerState

-- The answers after the calls before, the newest first. `returns` gives 0 for PLAYER_ERROR_NONE,
-- `made` the player, 0 for nullptr, and `source` what `g_timeout_add` gives.
pub record Player : Type 0 where
  pub returns : List Call → Call → ℕ
  pub made : List Call → ℕ
  pub state : List Call → PlayerState
  pub source : List Call → ℕ

-- `state_cb` and `receive_cb` tell whether the callbacks are set.
pub record RtspClient : Type 0 where
  pub is_start : Bool
  pub player : ℕ
  pub display : ℕ
  pub fps : ℤ
  pub capture_source_id : ℕ
  pub receive_cb : Bool
  pub state_cb : Bool
  pub calls : List Call

abbrev called : Call → RtspClient → RtspClient
called call c = record c { calls = call ∷ c.calls }

unfoldable pub set_fps : ℤ → RtspClient → RtspClient
set_fps fps c = record c { fps = fps }

unfoldable pub set_callbacks : Bool → RtspClient → RtspClient
set_callbacks set c = record c { receive_cb = set; state_cb = set }

module _ (lib : Player) where
  abbrev returned : Call → RtspClient → Bool
  returned call c = lib.returns c.calls call == 0

  -- The constructor; `none` is an exception.
  unfoldable pub new_client : Option RtspClient
  new_client =
      let c : RtspClient = record {
        is_start = false;
        player = lib.made [];
        display = 0;
        fps = pos 2;
        capture_source_id = 0;
        receive_cb = false;
        state_cb = false;
        calls = create ∷ [];
      } in
      if not (lib.returns [] create == 0)
      then none
      else if returned interrupted_cb_set c
      then some (called interrupted_cb_set c)
      else none

  unfoldable pub delete_client : RtspClient → RtspClient
  delete_client c = called destroy (called (source_remove c.capture_source_id) c)

  unfoldable pub set_display : ℕ → RtspClient → RtspClient
  set_display display c =
      if c.player == 0 || display == 0 || c.is_start
      then c
      else if returned (display_set display) c
      then record (called (display_set display) c) { display = display }
      else record (called (display_set display) c) { display = 0 }

  unfoldable pub set_player_uri : Text → RtspClient → RtspClient
  set_player_uri uri c =
      if c.player == 0 || is_empty uri || c.is_start then c else called (uri_set uri) c

  abbrev captures : RtspClient → RtspClient
  captures c =
      let c' = called (timeout_add c.fps) c in record c' { capture_source_id = lib.source c.calls }

  -- `PlayerPreparedCB`
  unfoldable pub player_prepared : RtspClient → RtspClient
  player_prepared c =
      if c.player == 0
      then c
      else if returned player_start c
      then captures (called player_start c)
      else called player_start c

  -- `TimeoutCB`, and whether the timer goes on.
  unfoldable pub timeout_cb : RtspClient → RtspClient × Bool
  timeout_cb c = if c.player == 0 then (c, false) else (called capture_video c, true)

  abbrev begun : RtspClient → RtspClient
  begun c = record c { is_start = true }

  unfoldable pub start : RtspClient → RtspClient
  start c =
      let c1 = called get_state c in
      let prepared = called prepare_async c1 in
      let played = called player_start c1 in
      let plays = if returned player_start c1 then begun (captures played) else played in
      if c.player == 0 || c.is_start || c.display == 0
      then c
      else if not (returned get_state c)
      then c1
      else elim (lib.state c.calls) [
        | player_idle ↦ if returned prepare_async c1 then begun prepared else prepared
        | player_ready ↦ plays
        | player_paused ↦ plays
        | player_none ↦ c1
        | player_playing ↦ c1
      ]

  unfoldable pub stop : RtspClient → RtspClient
  stop c =
      if c.player == 0 || not c.is_start
      then c
      else called player_stop (record (called (source_remove c.capture_source_id) c) {
        is_start = false;
        capture_source_id = 0;
      })
