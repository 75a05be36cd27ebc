-- ===== src/Controller.antt =====
-- The package internal/controller: the reconciliation of a HelmRelease around the atomic release.
pub mod Flow
pub mod Dependencies
pub mod Source
pub mod Revision
pub mod Clients
pub mod Delete
pub mod Stages
pub mod Release
pub mod Entry
pub mod Requests
pub mod Predicate
