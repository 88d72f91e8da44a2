-- ===== src/Tests.antt =====
-- Concrete inputs: a buffer format and a cipher that satisfy what the theorems ask of them, and the
-- theorems applied to them.
pub mod Buffers
pub mod Ciphers
pub mod Dispatching
pub mod Lines
pub mod Peering
pub mod Playing
pub mod Replies
pub mod Clients
pub mod Links
pub mod Loops
pub mod Sessions
pub mod Streams
