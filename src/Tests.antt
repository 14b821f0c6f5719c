-- ===== src/Tests.antt =====
-- Concrete inputs for the theorems.
mod PlainCodec
mod Restart
mod Admitted
mod Framed
mod Delivered
mod Restarted
mod Statements
mod Served
mod Started
mod Locked
mod Cached
mod Migrated
mod Connected
mod Snapshots
