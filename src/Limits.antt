-- ===== src/Limits.antt =====
-- src/runtime_limits.rs: the bound on the connections, and reads that end by a frame's deadline.
pub mod Connections
pub mod Deadline
