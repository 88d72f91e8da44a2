-- ===== src/Lib.antt =====
-- AITT: topics, published and subscribed over an MQTT broker or from peer to peer over TCP, with
-- replies and with a discovery by which the clients tell each other what they subscribe to.
--
-- The parts, and where they are modelled:
--   * Types, Msg: the protocols, the errors and `AittMsg` (include/AittTypes.h,
--     include/AittException.h, common/AittMsg.cc).
--   * Mqtt: `MosquittoMQ` (src/MosquittoMQ.cc). Message holds what is published and how a message is
--     read, Subscribers the vector of subscribers with `Subscribe` and `Unsubscribe`, Dispatch the loop
--     of `MessageCB`, in which callbacks subscribe and unsubscribe, and Connection the constructor,
--     `Connect`, `Disconnect` and their callbacks.
--   * Flex: what the code uses of FlexBuffers, which is not in the repository, and its laws.
--   * Tcp: the TCP transport (modules/tcp). Stream is `TCP::Send` and `TCP::Recv`, Framing the messages
--     with their sizes, plain and encrypted, Info `PackMsgInfo` and `UnpackMsgInfo`; Peers keeps the
--     tables of peers, Publish sends to them, and Server is the listening side of `Module`,
--     with Server/Receiving.
--   * MqDiscovery: `MQDiscoveryHandler` (src/MQDiscoveryHandler.cc), who subscribes over MQTT.
--   * Discovery: `AittDiscovery` (common/AittDiscovery.cc), the messages between clients.
--   * Impl: `AITT::Impl` (src/AITTImpl.cc), the client over an interface of its transports, with the
--     size checks of src/AITT.cc; Impl/Connecting has `Connect` and `Disconnect`, and Impl/Sync
--     `PublishWithReplySync` and `SendReply`, with the client that it leaves in Sync/Left.
--   * Modules: `ModuleManager` (src/ModuleManager.cc) and `NullTransport` (src/NullTransport.cc), the
--     transports and the streams that are loaded.
--   * Webrtc: the streams over WebRTC (modules/webrtc). Stream is `WebRtcStream` with its states, its
--     peer and its events, and Stream/Book what it promises, with a set of candidates for the list and
--     with the library's answers as they come; Frames the queue of RequestServer.cc and
--     SyncQueue.h with its thread; Message what the two ends tell each other; Manager the end of a
--     source and that of a sink (StreamManager.cc, SrcStreamManager.cc, SinkStreamManager.cc), Module
--     the stream as a user has it (Module.cc), and Handshake how the two ends meet.
--   * Rtsp: the streams over RTSP (modules/rtsp): `RTSPInfo` and `RTSPClient`, and in Module the stream
--     with its discovery.
--   * Loop: `PosixMainLoop` (common/PosixMainLoop.cc), its tables, the three checks of a round, and in
--     Timeouts the round.
--   * Options: `AittOption` (common/AittOption.cc), and `aitt_option_set` and `aitt_option_get`
--     (src/aitt_c.cc).
--   * CApi: the C interface of a client (src/aitt_c.cc), its guards and its flag `connected`.
--   * Base: shared names and lemmas; Tests: the theorems at concrete inputs.
--
-- A client hands a message to `Impl.publish`, which gives it to Mqtt or Tcp. `Tcp.Publish` finds the
-- hosts in the table that `Tcp.Peers` fills from the messages of Discovery, and writes packets of
-- Info with Framing over Stream; `Tcp.Server` reads them and calls the subscribers.
--
-- State is passed explicitly, and an operation gives the new state with its result, also when it
-- throws. Strings are lists of bytes. Objects are known by addresses that are numbers, 0 for a null
-- pointer. A `std::map` is an association list that insertion keeps in order. Mutexes are not
-- modelled: an operation that holds one is a step. libmosquitto, the sockets and the ciphers are not
-- in the repository: their answers are arguments, as lists where calls are repeated, or records that
-- answer a call by the calls before it, as for mosquitto, the player and the
-- WebRTC library.
--
-- Fuel stands in two places. The loop of `Mqtt.Dispatch` takes one unit a round: more units than there
-- are subscribers are enough, which is shown of callbacks that unsubscribe only themselves. The loop
-- of `CheckTimeout` takes one unit a number that it reads from its pipe. The loops of
-- `Tcp.Stream` recur on the answers of the operating system: as many answers as bytes are enough.
--
-- Not modelled: the threads but for the one of Webrtc/Frames, the timers of the operating system, the
-- set-up of sockets, the custom broker, the Android bindings, the tools, and the rest of the C
-- interface.
pub mod Base
pub mod Types
pub mod Msg
pub mod Mqtt
pub mod Flex
pub mod Tcp
pub mod MqDiscovery
pub mod Discovery
pub mod Options
pub mod Impl
pub mod Loop
pub mod CApi
pub mod Webrtc
pub mod Modules
pub mod Rtsp
pub mod Tests
