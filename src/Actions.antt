-- ===== src/Actions.antt =====
-- Actions on processes and sockets (include/trfx_actions.h, src/trfx_actions.c).
pub mod Types
pub mod World
pub mod Names
pub mod Requests
pub mod Review
pub mod Endpoint
pub mod Lookup
pub mod Audit
pub mod Execute
