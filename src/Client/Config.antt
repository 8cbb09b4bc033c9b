-- ===== src/Client/Config.antt =====
-- rx/client/configuration
pub mod Values
pub mod Environment
pub mod Roots
pub mod Files
pub mod Local
pub mod Create
pub mod Store
