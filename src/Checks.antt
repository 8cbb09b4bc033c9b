-- ===== src/Checks.antt =====
-- The development at concrete inputs.
mod Daemon
mod Worker
mod Client
mod Config
mod Commands
mod Initialized
mod Trex
mod Users
mod Process
