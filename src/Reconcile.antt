-- ===== src/Reconcile.antt =====
-- The package internal/reconcile: the action reconcilers of a HelmRelease and the atomic release
-- loop that chooses between them.
pub mod Access
pub mod ChartTemplate
pub mod Request
pub mod Summary
pub mod Record
pub mod State
pub mod Actions
pub mod Atomic
