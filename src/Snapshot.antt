-- ===== src/Snapshot.antt =====
-- src/bin/frontend_metric_snapshot.rs, the program that writes the metrics of the frontend.
pub mod Metrics
pub mod Program
pub mod Keyed
pub mod Named
pub mod Written
