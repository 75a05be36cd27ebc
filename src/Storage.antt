-- ===== src/Storage.antt =====
-- The package internal/storage: the drivers that are put around a storage driver of Helm.
pub mod Observer
