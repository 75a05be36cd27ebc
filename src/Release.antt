-- ===== src/Release.antt =====
-- The package internal/release: observations of Helm releases and the snapshots made of them.
pub mod Observation
pub mod TestHooks
pub mod Snapshot
pub mod Name
