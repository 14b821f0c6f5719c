-- ===== src/Protocol.antt =====
-- src/protocol.rs: frames, messages and the session of one client.
pub mod Frame
pub mod Message
pub mod Materialized
pub mod Digits
pub mod Placed
pub mod Session
pub mod Client
pub mod Encode
pub mod Guarded
