-- ===== src/Client.antt =====
-- rx/client: the command's connections, configuration and dialogs.
pub mod Config
pub mod Browser
pub mod Subscribe
pub mod Worker
pub mod Login
pub mod Trex
pub mod Menu
pub mod User
