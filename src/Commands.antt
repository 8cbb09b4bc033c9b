-- ===== src/Commands.antt =====
-- rx/client/commands: the subcommands of rx.
pub mod Base
pub mod Line
pub mod Parsers
pub mod Daemon
pub mod Trex
pub mod Run
pub mod Stop
pub mod Ports
pub mod Init
