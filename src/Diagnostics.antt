-- ===== src/Diagnostics.antt =====
-- The diagnostics (src/trfx_diagnostics.c): the log lines, where they come from, the alerts, and the snapshot of all.
pub mod Logs
pub mod Sources
pub mod Alerts
pub mod Snapshot
pub mod Raised
