-- ===== src/Schema.antt =====
-- src/schema.rs: the migrations, the owner that applies them and the instances that wait for it.
pub mod Columns
pub mod Smaller
pub mod Upgrades
pub mod Migrations
pub mod Owner
pub mod Waiter
pub mod Sound
pub mod Applied
pub mod Total
pub mod Prepared
