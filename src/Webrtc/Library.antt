-- ===== src/Webrtc/Library.antt =====
-- What modules/webrtc calls of the WebRTC library and of the media formats, which are not in the
-- repository: the calls, and how the library answers them.
use aitt.Base.{ℕ, List, Text, ℤ}

-- `webrtc_media_source_type_e`
pub data MediaSource : Type 0 where
  source_null source_camera source_media_packet : MediaSource

-- `webrtc_transceiver_codec_e`
pub data Codec : Type 0 where
  codec_vp8 codec_vp9 codec_h264 : Codec

-- `media_format_mimetype_e`
pub data Mime : Type 0 where
  mime_i420 mime_nv12 mime_vp8 mime_vp9 mime_h264_hp mime_mjpeg mime_max : Mime

-- The callbacks that the library is given.
pub data Signal : Type 0 where
  error_cb state_changed_cb signaling_state_change_cb ice_gathering_state_change_cb : Signal
  ice_connection_state_change_cb ice_candidate_cb encoded_video_frame_cb track_added_cb : Signal
  data_channel_open_cb : Signal

-- Without the handle, which stands beside it.
pub data Request : Type 0 where
  webrtc_create webrtc_destroy webrtc_start webrtc_stop : Request
  create_data_channel destroy_data_channel : Request
  set_signal unset_signal : Signal → Request
  webrtc_create_offer_async webrtc_create_answer_async : Request
  webrtc_set_local_description webrtc_set_remote_description add_ice_candidate : Text → Request
  add_media_source : MediaSource → Request
  remove_media_source set_buffer_state_changed_cb set_payload_type_h264 : ℕ → Request
  webrtc_set_video_resolution : ℕ → (width height : ℤ) → Request
  set_video_framerate : ℕ → ℤ → Request
  set_transceiver_codec : ℕ → Codec → Request
  set_format : (source : ℕ) → (format : ℕ) → Request
  push_packet : (source : ℕ) → (packet : ℕ) → Request
  foreach_stats : Request
  webrtc_set_display : (track : ℕ) → (display : ℕ) → Request
  media_format_create media_format_unref : Request
  set_video_mime : Mime → Request
  set_video_width set_video_height set_format_frame_rate : ℤ → Request

-- A call, with its handle: of a stream, of a data channel or of a media format.
pub record Call : Type 0 where
  pub handle : ℕ
  pub request : Request

-- The answers, after the calls before, the newest first. 0 is WEBRTC_ERROR_NONE, and
-- MEDIA_FORMAT_ERROR_NONE.
pub record Webrtc : Type 0 where
  pub returns : List Call → Call → ℕ
  -- The handle or the number that a call gives where it returns 0.
  pub gives : List Call → Call → ℕ
