-- ===== src/Tcp.antt =====
-- modules/tcp: the transport over TCP. `Stream` is the socket, `Framing` the messages on it.
pub mod Stream
pub mod Framing
pub mod Info
pub mod Peers
pub mod Server
pub mod Publish
