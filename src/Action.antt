-- ===== src/Action.antt =====
-- The package internal/action: verification of releases, and the reset of failure counters.
pub mod Crds
pub mod Handler
pub mod Log
pub mod Options
pub mod Run
pub mod Verify
pub mod Reset
