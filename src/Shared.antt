-- ===== src/Shared.antt =====
-- rx/shared
pub mod Progress
