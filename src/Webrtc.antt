-- ===== src/Webrtc.antt =====
-- modules/webrtc: media streams between two clients, over the WebRTC library.
pub mod States
pub mod Frames
pub mod Library
pub mod Stream
pub mod Message
pub mod Manager
pub mod Module
pub mod Handshake
