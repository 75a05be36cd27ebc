-- ===== src/Api.antt =====
-- The package api/v2: the HelmRelease resource, its specification, status and history.
pub mod Conditions
pub mod Snapshots
pub mod Spec
pub mod HelmRelease
pub mod Charts
