-- ===== src/Webrtc/States.antt =====
-- modules/webrtc/WebRtcState.cc: the states that the WebRTC library tells, the states of the program,
-- and their names.
use aitt.Base.{Text, codes}

-- The enumerations of the library, which is not in the repository. `…_other` is any other value.
pub data NativeState : Type 0 where
  state_idle state_negotiating state_playing state_other : NativeState

pub data NativeSignaling : Type 0 where
  signaling_stable signaling_have_local_offer signaling_have_remote_offer : NativeSignaling
  signaling_have_local_pranswer signaling_have_remote_pranswer : NativeSignaling
  signaling_closed signaling_other : NativeSignaling

pub data NativeGathering : Type 0 where
  gathering_complete gathering_gathering gathering_new gathering_other : NativeGathering

pub data NativeConnection : Type 0 where
  connection_checking connection_closed connection_completed connection_connected : NativeConnection
  connection_disconnected connection_failed connection_new connection_other : NativeConnection

pub data NativeBuffer : Type 0 where
  buffer_underflow buffer_overflow buffer_other : NativeBuffer

-- `WebRtcState::Stream`
pub data StreamState : Type 0 where
  idle negotiating playing : StreamState

pub data Signaling : Type 0 where
  stable closed have_local_offer have_remote_offer have_local_pranswer have_remote_pranswer :
      Signaling

pub data IceGathering : Type 0 where
  gathering_is_new gathering gathering_is_complete : IceGathering

pub data IceConnection : Type 0 where
  ice_new ice_checking ice_connected ice_completed ice_failed ice_disconnected ice_closed :
      IceConnection

pub data SourceBufferState : Type 0 where
  underflow overflow : SourceBufferState

unfoldable pub to_stream_state : NativeState → StreamState
to_stream_state state_idle = idle
to_stream_state state_negotiating = negotiating
to_stream_state state_playing = playing
to_stream_state state_other = idle

unfoldable pub stream_to_str : StreamState → Text
stream_to_str idle = codes "IDLE"
stream_to_str negotiating = codes "NEGOTIATING"
stream_to_str playing = codes "PLAYING"

unfoldable pub to_signaling_state : NativeSignaling → Signaling
to_signaling_state signaling_stable = stable
to_signaling_state signaling_have_local_offer = have_local_offer
to_signaling_state signaling_have_remote_offer = have_remote_offer
to_signaling_state signaling_have_local_pranswer = have_local_pranswer
to_signaling_state signaling_have_remote_pranswer = have_remote_pranswer
to_signaling_state signaling_closed = closed
to_signaling_state signaling_other = stable

unfoldable pub signaling_to_str : Signaling → Text
signaling_to_str stable = codes "STABLE"
signaling_to_str closed = codes "CLOSED"
signaling_to_str have_local_offer = codes "HAVE_LOCAL_OFFER"
signaling_to_str have_remote_offer = codes "HAVE_REMOTE_OFFER"
signaling_to_str have_local_pranswer = codes "HAVE_LOCAL_PRANSWER"
signaling_to_str have_remote_pranswer = codes "HAVE_REMOTE_PRANSWER"

unfoldable pub to_ice_gathering_state : NativeGathering → IceGathering
to_ice_gathering_state gathering_complete = gathering_is_complete
to_ice_gathering_state gathering_gathering = gathering
to_ice_gathering_state gathering_new = gathering_is_new
to_ice_gathering_state gathering_other = gathering_is_new

unfoldable pub ice_gathering_to_str : IceGathering → Text
ice_gathering_to_str gathering_is_new = codes "NEW"
ice_gathering_to_str gathering = codes "GATHERING"
ice_gathering_to_str gathering_is_complete = codes "COMPLETE"

unfoldable pub to_ice_connection_state : NativeConnection → IceConnection
to_ice_connection_state connection_checking = ice_checking
to_ice_connection_state connection_closed = ice_closed
to_ice_connection_state connection_completed = ice_completed
to_ice_connection_state connection_connected = ice_connected
to_ice_connection_state connection_disconnected = ice_disconnected
to_ice_connection_state connection_failed = ice_failed
to_ice_connection_state connection_new = ice_new
to_ice_connection_state connection_other = ice_new

unfoldable pub ice_connection_to_str : IceConnection → Text
ice_connection_to_str ice_new = codes "NEW"
ice_connection_to_str ice_checking = codes "CHECKING"
ice_connection_to_str ice_connected = codes "CONNECTED"
ice_connection_to_str ice_completed = codes "COMPLETED"
ice_connection_to_str ice_failed = codes "FAILED"
ice_connection_to_str ice_disconnected = codes "DISCONNECTED"
ice_connection_to_str ice_closed = codes "CLOSED"

unfoldable pub to_source_buffer_state : NativeBuffer → SourceBufferState
to_source_buffer_state buffer_underflow = underflow
to_source_buffer_state buffer_overflow = overflow
to_source_buffer_state buffer_other = overflow

unfoldable pub source_buffer_state_to_str : SourceBufferState → Text
source_buffer_state_to_str underflow = codes "UNDERFLOW"
source_buffer_state_to_str overflow = codes "OVERFLOW"
