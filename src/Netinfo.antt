-- ===== src/Netinfo.antt =====
-- What src/trfx_netinfo.c collects: routes, DNS servers, counters and rates, interfaces, and the snapshot of all.
pub mod Snapshot
pub mod Interfaces
pub mod Stats
pub mod Routes
pub mod Dns
pub mod Rates
