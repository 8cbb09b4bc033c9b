-- ===== src/Trex.antt =====
-- rx/trex/toolchain: which languages and tools a project uses, and the list of its files.
pub mod Manifest
pub mod Detector
pub mod Listing
pub mod Toolchain
