-- ===== src/Webrtc/Stream.antt =====
-- modules/webrtc/WebRtcStream.cc: a stream of the WebRTC library. Its calls are recorded with it. Here
-- are its life, its source and its media settings, and in the children what it keeps of its peer, and
-- the callbacks of the library.
pub mod Peer
pub mod Events
pub mod Book
pub mod Refine
pub mod Candidates
pub mod Ids
pub mod Source
use aitt.Base.{
  ℕ, ◌==◌, Bool, true, false, List, [], ◌∷◌, Option, none, some, if◌then◌else◌, not, ◌&&◌, Text,
  codes, text_eq, ℤ,
}
use aitt.Types.{Result, ok, err, runtime_error}
use aitt.Webrtc.Library.{
  MediaSource, Codec, Mime, Signal, Request, Call, Webrtc, source_null, source_camera,
  source_media_packet, codec_vp8, codec_vp9, codec_h264, mime_i420, mime_nv12, mime_vp8, mime_vp9,
  mime_h264_hp, mime_mjpeg, mime_max, error_cb, state_changed_cb, signaling_state_change_cb,
  ice_gathering_state_change_cb, ice_connection_state_change_cb, ice_candidate_cb,
  encoded_video_frame_cb, track_added_cb, data_channel_open_cb, webrtc_create, webrtc_destroy,
  webrtc_start, webrtc_stop, create_data_channel, destroy_data_channel, set_signal, unset_signal,
  webrtc_create_offer_async, webrtc_create_answer_async, webrtc_set_local_description,
  webrtc_set_remote_description, add_ice_candidate, add_media_source, remove_media_source,
  set_buffer_state_changed_cb, set_payload_type_h264, webrtc_set_video_resolution,
  set_video_framerate, set_transceiver_codec, set_format, push_packet, foreach_stats,
  webrtc_set_display, media_format_create, media_format_unref, set_video_mime, set_video_width,
  set_video_height, set_format_frame_rate,
}

-- Which callbacks of `WebRtcEventHandler` are set.
pub record EventHandler : Type 0 where
  pub on_state_changed : Bool
  pub on_signaling_state_notify : Bool
  pub on_ice_candidate : Bool
  pub on_ice_gathering_state_notify : Bool
  pub on_ice_connection_state_notify : Bool
  pub on_encoded_frame : Bool
  pub on_track_added : Bool
  pub on_source_buffer_state : Bool

-- `WebRtcStream`. Handles and `display_object` are pointers, 0 for nullptr; `calls` has the newest
-- first.
pub record Stream : Type 0 where
  pub webrtc_handle : ℕ
  pub source_type : MediaSource
  pub channel : ℕ
  pub source_id : ℕ
  pub display_object : ℕ
  pub local_description : Text
  pub remote_description : Text
  pub id : Text
  pub peer_id : Text
  pub ice_candidates : List Text
  pub peer_ice_candidates : List Text
  pub stored_peer_ice_candidates : List Text
  pub on_offer_created_set : Bool
  pub on_answer_created_set : Bool
  pub event_handler : EventHandler
  pub calls : List Call

abbrev no_handler : EventHandler
no_handler = record {
  on_state_changed = false;
  on_signaling_state_notify = false;
  on_ice_candidate = false;
  on_ice_gathering_state_notify = false;
  on_ice_connection_state_notify = false;
  on_encoded_frame = false;
  on_track_added = false;
  on_source_buffer_state = false;
}

-- A stream that has called nothing.
abbrev pub fresh : Stream
fresh = record {
  webrtc_handle = 0;
  source_type = source_null;
  channel = 0;
  source_id = 0;
  display_object = 0;
  local_description = [];
  remote_description = [];
  id = [];
  peer_id = [];
  ice_candidates = [];
  peer_ice_candidates = [];
  stored_peer_ice_candidates = [];
  on_offer_created_set = false;
  on_answer_created_set = false;
  event_handler = no_handler;
  calls = [];
}

abbrev pub call_of : ℕ → Request → Call
call_of handle request = record { handle = handle; request = request }

-- A call with another handle than the stream's.
abbrev pub called_on : ℕ → Request → Stream → Stream
called_on handle request s = record s { calls = call_of handle request ∷ s.calls }

abbrev pub called : Request → Stream → Stream
called request s = called_on s.webrtc_handle request s

abbrev pub is_media_packet : MediaSource → Bool
is_media_packet source_null = false
is_media_packet source_camera = false
is_media_packet source_media_packet = true

abbrev is_codec_h264 : Codec → Bool
is_codec_h264 codec_vp8 = false
is_codec_h264 codec_vp9 = false
is_codec_h264 codec_h264 = true

module _ (lib : Webrtc) where
  abbrev pub returned : Request → Stream → ℕ
  returned request s = lib.returns s.calls (call_of s.webrtc_handle request)

  abbrev pub given : Request → Stream → ℕ
  given request s = lib.gives s.calls (call_of s.webrtc_handle request)

  -- A call, and whether it returns WEBRTC_ERROR_NONE.
  abbrev pub tried : Request → Stream → Stream × Bool
  tried request s = (called request s, returned request s == 0)

  -- The constructor.
  unfoldable pub new_stream : Result Stream
  new_stream =
      if returned webrtc_create fresh == 0
      then ok (record (called webrtc_create fresh) { webrtc_handle = given webrtc_create fresh })
      else err runtime_error

  unfoldable pub start : Stream → Stream × Bool
  start s = tried webrtc_start s

  unfoldable pub stop : Stream → Stream × Bool
  stop s = tried webrtc_stop s

  unfoldable pub push : ℕ → Stream → Stream × ℕ
  push packet s =
      let request = push_packet s.source_id packet in (called request s, returned request s)

  unfoldable pub activate_source : Stream → Stream × Bool
  activate_source s =
      let request = add_media_source s.source_type in
      let added = returned request s == 0 in
      let s' = record (called request s) {
        source_id = if added then given request s else s.source_id;
      } in
      if not (s.source_id == 0) then (s, false) else (
        (if is_media_packet s.source_type
            then called (set_buffer_state_changed_cb s'.source_id) s'
            else s'),
        added,
      )

  unfoldable pub deactivate_source : Stream → Stream × Bool
  deactivate_source s =
      let request = remove_media_source s.source_id in
      let removed = returned request s == 0 in
      if s.source_id == 0
      then (s, false)
      else (record (called request s) { source_id = if removed then 0 else s.source_id }, removed)

  unfoldable pub set_video_resolution : ℤ → ℤ → Stream → Stream × Bool
  set_video_resolution width height s =
      if s.source_id == 0
      then (s, false)
      else tried (webrtc_set_video_resolution s.source_id width height) s

  unfoldable pub set_video_frame_rate : ℤ → Stream → Stream × Bool
  set_video_frame_rate frame_rate s =
      if s.source_id == 0 then (s, false) else tried (set_video_framerate s.source_id frame_rate) s

  abbrev pub format_requests : ℤ → ℤ → ℤ → Mime → List Request
  format_requests width height frame_rate mime =
      set_video_mime mime
      ∷ set_video_width width
      ∷ set_video_height height
      ∷ set_format_frame_rate frame_rate
      ∷ []

  -- The calls on a media format, and whether all of them return 0.
  unfoldable pub all_called : ℕ → List Request → Stream → Stream × Bool
  all_called format [] s = (s, true)
  all_called format (request ∷ requests) s =
      let (s', rest) = all_called format requests (called_on format request s) in
      (s', (lib.returns s.calls (call_of format request) == 0) && rest)

  unfoldable pub get_video_format_enum : Text → Mime
  get_video_format_enum format =
      if text_eq format (codes "I420")
      then mime_i420
      else if text_eq format (codes "NV12")
      then mime_nv12
      else if text_eq format (codes "VP8")
      then mime_vp8
      else if text_eq format (codes "VP9")
      then mime_vp9
      else if text_eq format (codes "H264")
      then mime_h264_hp
      else if text_eq format (codes "JPEG")
      then mime_mjpeg
      else mime_max

  -- A handle of a media format, 0 for nullptr.
  unfoldable pub get_media_format_handler : ℤ → ℤ → ℤ → Text → Stream → Stream × ℕ
  unfolding all_called get_video_format_enum
  get_media_format_handler width height frame_rate format s =
      let create = call_of 0 media_format_create in
      let s0 = called_on 0 media_format_create s in
      let handle = lib.gives s.calls create in
      let (s1, set) =
        all_called handle (format_requests width height frame_rate (get_video_format_enum format))
          s0 in
      if lib.returns s.calls create == 0
      then (if set then (s1, handle) else (called_on handle media_format_unref s1, 0))
      else (s0, 0)

  unfoldable pub set_media_format : ℤ → ℤ → ℤ → Text → Stream → Stream × Bool
  unfolding get_media_format_handler
  set_media_format width height frame_rate format s =
      let (s1, handle) = get_media_format_handler width height frame_rate format s in
      let request = set_format s1.source_id handle in
      let s2 = called_on handle media_format_unref (called request s1) in
      let s3 =
        if is_media_packet s2.source_type && text_eq format (codes "H264")
        then called (set_payload_type_h264 s2.source_id) s2
        else s2 in
      if handle == 0 then (s1, false) else (s3, returned request s1 == 0)

  unfoldable pub set_decode_codec : Text → Stream → Stream
  set_decode_codec codec s =
      let c =
        if text_eq codec (codes "VP9")
        then codec_vp9
        else if text_eq codec (codes "H264")
        then codec_h264
        else codec_vp8 in
      let s' = called (set_transceiver_codec s.source_id c) s in
      if is_codec_h264 c then called (set_payload_type_h264 s'.source_id) s' else s'

  unfoldable pub create_offer_async : Stream → Stream × Bool
  create_offer_async s = tried webrtc_create_offer_async (record s { on_offer_created_set = true })

  unfoldable pub create_answer_async : Stream → Stream × Bool
  create_answer_async s =
      tried webrtc_create_answer_async (record s { on_answer_created_set = true })

  unfoldable pub print_stats : Stream → Stream
  print_stats s = called foreach_stats s

  unfoldable pub add_data_channel : Stream → Stream
  add_data_channel s = record (called create_data_channel s) {
    channel =
        if returned create_data_channel s == 0 then given create_data_channel s else s.channel;
  }

unfoldable pub set_source_type : MediaSource → Stream → Stream
set_source_type source_type s = record s { source_type = source_type }

unfoldable pub set_display : ℕ → Stream → Stream
set_display display_object s =
    let s' = record s { display_object = display_object } in
    if display_object == 0
    then called (set_signal encoded_video_frame_cb) s'
    else called (unset_signal encoded_video_frame_cb) s'

unfoldable pub is_display_sink : Stream → Bool
is_display_sink s = not (s.display_object == 0)

-- Calls of the stream one after the other.
unfoldable pub called_all : List Request → Stream → Stream
called_all [] s = s
called_all (request ∷ requests) s = called_all requests (called request s)

unfoldable pub attach_signals : (is_source : Bool) → Stream → Stream
unfolding called_all
attach_signals is_source s =
    let s1 =
      called_all
        (set_signal error_cb
          ∷ set_signal state_changed_cb
          ∷ set_signal signaling_state_change_cb
          ∷ set_signal ice_gathering_state_change_cb
          ∷ set_signal ice_connection_state_change_cb
          ∷ set_signal ice_candidate_cb
          ∷ [])
        s in
    let s2 =
      if is_source
      then s1
      else called_all (set_signal encoded_video_frame_cb ∷ set_signal track_added_cb ∷ []) s1 in
    called_on s2.channel (set_signal data_channel_open_cb) s2

unfoldable pub detach_signals : Stream → Stream
unfolding called_all
detach_signals s = called_on s.channel (unset_signal data_channel_open_cb) (
    called_all
      (unset_signal error_cb
        ∷ unset_signal state_changed_cb
        ∷ unset_signal signaling_state_change_cb
        ∷ unset_signal ice_gathering_state_change_cb
        ∷ unset_signal ice_connection_state_change_cb
        ∷ unset_signal ice_candidate_cb
        ∷ unset_signal encoded_video_frame_cb
        ∷ unset_signal track_added_cb
        ∷ [])
      s)

unfoldable pub destroy : Stream → Stream
unfolding detach_signals
destroy s =
    let s1 = detach_signals (called webrtc_stop s) in
    let s2 = called webrtc_destroy (called_on s1.channel destroy_data_channel s1) in
    record s2 { webrtc_handle = 0 }
