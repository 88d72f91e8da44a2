-- ===== src/Modules.antt =====
-- src/ModuleManager.cc and src/NullTransport.cc: the transports and the streams that are loaded from
-- shared libraries. What `dlopen`, `dlsym` and the entry of a library give are arguments.
pub mod Streams
use aitt.Base.{
  ℕ, ◌==◌, Bool, true, false, List, [], ◌∷◌, ◌++◌, Option, none, some, if◌then◌else◌, not, Text,
  codes,
}
use aitt.Types.{
  AittProtocol, unknown, mqtt, tcp, tcp_secure, Result, ok, err, no_data_err, system_err,
}
use aitt.Impl.{Transport}

-- `TransportType`
pub data TransportType : Type 0 where
  type_tcp type_tcp_secure type_transport_max : TransportType

-- `AittStreamProtocol`. `stream_type_other` is a number outside of it.
pub data StreamType : Type 0 where
  stream_type_webrtc stream_type_rtsp stream_type_other : StreamType

-- What a library gives: `dlopen` a handle, `dlsym` the entry, and the entry the address of an object,
-- `none` for nullptr.
pub record Loading : Type 0 where
  pub opened : Bool
  pub found : Bool
  pub made : Option ℕ

-- `transports` by address, and which handles are there. `files` lists what was opened, `deleted` the
-- streams that were deleted, and `created` those that an entry has made.
pub record Modules : Type 0 where
  pub tcp_transport : Option ℕ
  pub secure_transport : Option ℕ
  pub webrtc_handle : Bool
  pub rtsp_handle : Bool
  pub custom_mqtt_handle : Bool
  pub streams_in_use : List ℕ
  pub files : List Text
  pub created : List ℕ
  pub deleted : List ℕ

abbrev pub no_modules : Modules
no_modules = record {
  tcp_transport = none;
  secure_transport = none;
  webrtc_handle = false;
  rtsp_handle = false;
  custom_mqtt_handle = false;
  streams_in_use = [];
  files = [];
  created = [];
  deleted = [];
}

unfoldable pub convert : AittProtocol → Result TransportType
convert tcp = ok type_tcp
convert tcp_secure = ok type_tcp_secure
convert mqtt = err no_data_err
convert unknown = err no_data_err

abbrev transport_at : TransportType → Modules → Option ℕ
transport_at type_tcp m = m.tcp_transport
transport_at type_tcp_secure m = m.secure_transport
transport_at type_transport_max m = none

-- `ok none` is the null transport.
unfoldable pub get : AittProtocol → Modules → Result (Option ℕ)
unfolding convert
get protocol m = elim (convert protocol) [ err e ↦ err e | ok type ↦ ok (transport_at type m) ]

unfoldable pub get_transport_file_name : TransportType → Text
get_transport_file_name type_tcp = codes "libaitt-transport-tcp.so"
get_transport_file_name type_tcp_secure = codes "libaitt-transport-tcp.so"
get_transport_file_name type_transport_max = codes "Unknown"

unfoldable pub get_stream_file_name : StreamType → Text
get_stream_file_name stream_type_webrtc = codes "libaitt-stream-webrtc.so"
get_stream_file_name stream_type_rtsp = codes "libaitt-stream-rtsp.so"
get_stream_file_name stream_type_other = codes "Unknown"

unfoldable pub open_module : (opened : Bool) → Text → Modules → Modules × Result (Unit {0})
open_module opened file m =
    (record m { files = m.files ++ file ∷ [] }, if opened then ok tt else err system_err)

unfoldable pub open_transport :
    (opened : Bool) → TransportType → Modules → Modules × Result (Unit {0})
unfolding open_module get_transport_file_name
open_transport opened type_tcp_secure m = open_module opened (get_transport_file_name type_tcp) m
open_transport opened type_tcp m = open_module opened (get_transport_file_name type_tcp) m
open_transport opened type_transport_max m =
    open_module opened (get_transport_file_name type_transport_max) m

abbrev set_transport : TransportType → Option ℕ → Modules → Modules
set_transport type_tcp made m = record m { tcp_transport = made }
set_transport type_tcp_secure made m = record m { secure_transport = made }
set_transport type_transport_max made m = m

unfoldable pub load_transport : Loading → TransportType → Modules → Modules
unfolding open_transport
load_transport l type m =
    let m' = (open_transport l.opened type m).0 in
    if not l.opened then m' else if not l.found then m' else set_transport type l.made m'

-- The constructor.
unfoldable pub new_modules : (plain encrypted : Loading) → Modules
unfolding load_transport
new_modules plain encrypted =
    load_transport encrypted type_tcp_secure (load_transport plain type_tcp no_modules)

abbrev has_handle : StreamType → Modules → Bool
has_handle stream_type_webrtc m = m.webrtc_handle
has_handle stream_type_rtsp m = m.rtsp_handle
has_handle stream_type_other m = false

abbrev set_handle : StreamType → Modules → Modules
set_handle stream_type_webrtc m = record m { webrtc_handle = true }
set_handle stream_type_rtsp m = record m { rtsp_handle = true }
set_handle stream_type_other m = m

-- What `dlsym` and the entry give, after the library is there.
abbrev entered : Loading → Modules → Modules × Result ℕ
entered l m = if not l.found then (m, err system_err) else elim l.made [
  | none ↦ (m, err system_err)
  | some a ↦ (record m { created = a ∷ m.created }, ok a)
]

unfoldable pub new_stream_module : Loading → StreamType → Modules → Modules × Result ℕ
unfolding open_module get_stream_file_name
new_stream_module l type m =
    let m' = (open_module l.opened (get_stream_file_name type) m).0 in
    if has_handle type m
    then entered l m
    else if l.opened
    then entered l (set_handle type m')
    else (m', err system_err)

-- A stream that was made is in use. `none` is nullptr.
abbrev pub listed : Modules × Result ℕ → Modules × Option ℕ
listed (m, ok a) = (record m { streams_in_use = m.streams_in_use ++ a ∷ [] }, some a)
listed (m, err e) = (m, none)

unfoldable pub create_stream : Loading → StreamType → Modules → Modules × Option ℕ
unfolding new_stream_module
create_stream l stream_type_other m = (m, none)
create_stream l stream_type_webrtc m = listed (new_stream_module l stream_type_webrtc m)
create_stream l stream_type_rtsp m = listed (new_stream_module l stream_type_rtsp m)

-- `std::find`.
unfoldable pub in_use : ℕ → List ℕ → Bool
in_use a [] = false
in_use a (b ∷ streams) = let rest = in_use a streams in if b == a then true else rest

-- `erase` of what `std::find` finds.
unfoldable pub erase_stream : ℕ → List ℕ → List ℕ
erase_stream a [] = []
erase_stream a (b ∷ streams) =
    let rest = erase_stream a streams in if b == a then streams else b ∷ rest

unfoldable pub destroy_stream : ℕ → Modules → Modules
unfolding in_use erase_stream
destroy_stream a m =
    if in_use a m.streams_in_use
    then record m { streams_in_use = erase_stream a m.streams_in_use; deleted = a ∷ m.deleted }
    else m

unfoldable pub destroy_stream_all : Modules → Modules
destroy_stream_all m = record m { streams_in_use = []; deleted = m.streams_in_use ++ m.deleted }

unfoldable pub new_custom_mq : Loading → Modules → Modules × Result ℕ
unfolding open_module
new_custom_mq l m =
    let m' = (open_module l.opened (codes "libaitt-st-broker.so") m).0 in
    let after = if m.custom_mqtt_handle then m else record m' { custom_mqtt_handle = true } in
    if not m.custom_mqtt_handle
    then (if not l.opened then (m', err system_err) else (
      after,
      if not l.found then err system_err else elim l.made [ none ↦ err system_err | some a ↦ ok a ],
    ))
    else (
      after,
      if not l.found then err system_err else elim l.made [ none ↦ err system_err | some a ↦ ok a ],
    )

-- `NullTransport`: nothing is sent, and every handle is nullptr.
unfoldable pub null_transport : Transport (Unit {0})
null_transport = record {
  publish = λ topic payload s. (s, ok tt);
  publish_with_reply = λ topic payload reply correlation s. (s, ok tt);
  subscribe = λ topic s. (s, ok 0);
  unsubscribe = λ handle s. (s, ok 0);
  count_subscriber = λ topic s. 0;
}
