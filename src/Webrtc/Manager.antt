-- ===== src/Webrtc/Manager.antt =====
-- modules/webrtc/StreamManager.cc: one end of a stream, with what is configured of its media. The
-- children hold what the two kinds of ends do.
pub mod Camera
pub mod Sources
pub mod Started
pub mod Ends
pub mod Listening
use aitt.Base.{
  ℕ, ◌==◌, Bool, true, false, List, [], ◌∷◌, if◌then◌else◌, not, ◌&&◌, ◌||◌, Text, codes, text_eq,
  is_empty, ℤ, pos, negsuc,
}
use aitt.Types.{Result, ok, err, invalid_arg}
use aitt.Webrtc.Library.{Webrtc, MediaSource, source_null, source_camera, source_media_packet}
use aitt.Webrtc.Stream.{Stream, activate_source, deactivate_source, destroy, add_data_channel}
use aitt.Webrtc.Stream
use aitt.Webrtc.Frames.{Server, new_server}

-- What the manager tells the module when its stream tells it something.
pub data Notice : Type 0 where
  candidate_added : Notice
  stream_state : Text → Notice

-- Which callbacks are set.
pub record Callbacks : Type 0 where
  pub stream_start_cb : Bool
  pub stream_stop_cb : Bool
  pub stream_state_cb : Bool
  pub ice_candidate_added_cb : Bool

-- A `SinkStreamManager` or a `SrcStreamManager`. `address` is what prints of the address of the
-- stream; `notices` has the newest first. The last three are of the sink.
pub record Manager : Type 0 where
  pub is_source : Bool
  pub is_started : Bool
  pub width : ℤ
  pub height : ℤ
  pub frame_rate : ℤ
  pub source_name : Text
  pub format : Text
  pub decode_codec : Text
  pub topic : Text
  pub watching_topic : Text
  pub thread_id : Text
  pub address : Text
  pub peer_aitt_id : Text
  pub stream : Stream
  pub callbacks : Callbacks
  pub notices : List Notice
  pub frame_received : ℕ
  pub decode_pipeline : Bool
  pub request_server : Server

unfoldable pub int_eq : ℤ → ℤ → Bool
int_eq (pos a) (pos b) = a == b
int_eq (negsuc a) (negsuc b) = a == b
int_eq (pos a) (negsuc b) = false
int_eq (negsuc a) (pos b) = false

-- An `int` as a condition.
abbrev pub is_nonzero : ℤ → Bool
is_nonzero (pos n) = not (n == 0)
is_nonzero (negsuc n) = true

abbrev pub media_packet : Text
media_packet = codes "MEDIA_PACKET"

abbrev pub camera : Text
camera = codes "CAMERA"

abbrev pub null_source : Text
null_source = codes "NULL"

abbrev no_callback : Callbacks
no_callback = record {
  stream_start_cb = false;
  stream_stop_cb = false;
  stream_state_cb = false;
  ice_candidate_added_cb = false;
}

abbrev pub tell : Bool → Notice → Manager → Manager
tell set notice m = if set then record m { notices = notice ∷ m.notices } else m

abbrev pub with_stream : Stream → Manager → Manager
with_stream stream m = record m { stream = stream }

unfoldable pub is_supported_format : Text → Result (Unit {0})
is_supported_format format =
    if not (text_eq format (codes "VP8")) && not (text_eq format (codes "H264"))
    then err invalid_arg
    else ok tt

module _ (lib : Webrtc) where
  -- The constructor of `StreamManager`, with a stream that has been made.
  unfoldable pub new_manager :
      (is_source : Bool) → (topic watching_topic thread_id address : Text) → Stream → Manager
  new_manager is_source topic watching_topic thread_id address stream = record {
    is_source = is_source;
    is_started = false;
    width = pos 0;
    height = pos 0;
    frame_rate = pos 0;
    source_name = null_source;
    format = [];
    decode_codec = codes "VP8";
    topic = topic;
    watching_topic = watching_topic;
    thread_id = thread_id;
    address = address;
    peer_aitt_id = [];
    stream = add_data_channel lib stream;
    callbacks = no_callback;
    notices = [];
    frame_received = 0;
    decode_pipeline = false;
    request_server = new_server;
  }

  abbrev pub format_set : ℤ → ℤ → ℤ → Text → Manager → Manager
  format_set width height frame_rate format m =
      with_stream (Stream.set_media_format lib width height frame_rate format m.stream).0 m

  abbrev pub resolution_set : ℤ → ℤ → Manager → Manager
  resolution_set width height m =
      with_stream (Stream.set_video_resolution lib width height m.stream).0 m

  abbrev pub rate_set : ℤ → Manager → Manager
  rate_set frame_rate m = with_stream (Stream.set_video_frame_rate lib frame_rate m.stream).0 m

  abbrev pub has_format : Manager → Bool
  has_format m = not (is_empty m.format)

  -- The media format is set with the width that was there before.
  unfoldable pub set_width : ℤ → Manager → Manager
  unfolding int_eq
  set_width width m =
      let told =
        if text_eq m.source_name media_packet
          && is_nonzero m.height
          && is_nonzero m.frame_rate
          && has_format m
        then format_set m.width m.height m.frame_rate m.format m
        else if text_eq m.source_name camera && is_nonzero m.height
        then resolution_set width m.height m
        else m in
      if int_eq m.width width then m else record told { width = width }

  unfoldable pub set_height : ℤ → Manager → Manager
  unfolding int_eq
  set_height height m =
      let told =
        if text_eq m.source_name media_packet
          && is_nonzero m.width
          && is_nonzero m.frame_rate
          && has_format m
        then format_set m.width height m.frame_rate m.format m
        else if text_eq m.source_name camera && is_nonzero m.width
        then resolution_set m.width height m
        else m in
      if int_eq m.height height then m else record told { height = height }

  unfoldable pub set_frame_rate : ℤ → Manager → Manager
  unfolding int_eq
  set_frame_rate frame_rate m =
      let told =
        if text_eq m.source_name media_packet
          && is_nonzero m.width
          && is_nonzero m.height
          && has_format m
        then format_set m.width m.height frame_rate m.format m
        else if text_eq m.source_name camera
        then rate_set frame_rate m
        else m in
      if int_eq m.frame_rate frame_rate then m else record told { frame_rate = frame_rate }

  abbrev pub activated : MediaSource → Manager → Manager
  activated source m =
      with_stream (activate_source lib (Stream.set_source_type source m.stream)).0 m

  unfoldable pub set_source_type : Text → Manager → Manager
  set_source_type source_type m =
      let m0 = with_stream (deactivate_source lib m.stream).0 m in
      let packet = activated source_media_packet m0 in
      let filmed = activated source_camera m0 in
      let sized =
        if is_nonzero m.width && is_nonzero m.height
        then resolution_set m.width m.height filmed
        else filmed in
      let changed =
        if text_eq source_type media_packet
        then (if is_nonzero m.width
              && is_nonzero m.height
              && is_nonzero m.frame_rate
              && has_format m
            then format_set m.width m.height m.frame_rate m.format packet
            else packet)
        else if text_eq source_type camera
        then (if is_nonzero m.frame_rate then rate_set m.frame_rate sized else sized)
        else if text_eq source_type null_source
        then activated source_null m0
        else m0 in
      if text_eq m.source_name source_type then m else record changed { source_name = source_type }

  unfoldable pub set_media_format : Text → Manager → Manager × Result (Unit {0})
  unfolding is_supported_format
  set_media_format format m =
      let told =
        if text_eq m.source_name media_packet
          && is_nonzero m.width
          && is_nonzero m.height
          && is_nonzero m.frame_rate
        then format_set m.width m.height m.frame_rate format m
        else m in
      if text_eq m.format format then (m, ok tt) else elim (is_supported_format format) [
        | err e ↦ (m, err e)
        | ok u ↦ (record told { format = format }, ok tt)
      ]

  unfoldable pub set_decode_codec : Text → Manager → Manager × Result (Unit {0})
  unfolding is_supported_format
  set_decode_codec codec m =
      let told =
        if text_eq m.source_name null_source
        then with_stream (Stream.set_decode_codec lib codec m.stream) m
        else m in
      if text_eq m.decode_codec codec then (m, ok tt) else elim (is_supported_format codec) [
        | err e ↦ (m, err e)
        | ok u ↦ (record told { decode_codec = codec }, ok tt)
      ]

unfoldable pub set_display : ℕ → Manager → Manager
set_display display_object m = with_stream (Stream.set_display display_object m.stream) m

-- What the callback of the module does, which may throw, is an argument of `Start` and of `Stop`.
unfoldable pub start : Result (Unit {0}) → Manager → Manager × Result (Unit {0})
start called m =
    if m.callbacks.stream_start_cb
    then elim called [ err e ↦ (m, err e) | ok u ↦ (record m { is_started = true }, ok tt) ]
    else (record m { is_started = true }, ok tt)

unfoldable pub stop : Result (Unit {0}) → Manager → Manager × Result (Unit {0})
stop called m =
    let m' = record m { peer_aitt_id = []; stream = destroy m.stream } in
    if m.callbacks.stream_stop_cb
    then elim called [ err e ↦ (m', err e) | ok u ↦ (record m' { is_started = false }, ok tt) ]
    else (record m' { is_started = false }, ok tt)

unfoldable pub handle_removed_client : Text → Manager → Manager
handle_removed_client discovery_id m =
    if text_eq m.peer_aitt_id discovery_id then with_stream (destroy m.stream) m else m
