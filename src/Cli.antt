-- ===== src/Cli.antt =====
-- The command line (include/trfx_cli.h, src/trfx_cli.c): the options and the parser.
pub mod Options
pub mod Parse
pub mod Rounds
pub mod Messages
pub mod Confirmation
pub mod Filters
pub mod Profile
pub mod Query
