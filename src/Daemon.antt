-- ===== src/Daemon.antt =====
-- rx/daemon: the process that forwards ports of a workspace to this machine, and its client.
pub mod Errors
pub mod Forwarder
pub mod Service
pub mod Pidfile
pub mod Process
pub mod Client
pub mod Interceptors
pub mod Manager
pub mod Connection
