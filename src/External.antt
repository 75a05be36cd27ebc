-- ===== src/External.antt =====
-- The code that the controller calls and does not implement, as interfaces: the operations that it
-- uses, with the laws that the documentation of that code states.
pub mod Conditions
pub mod Digests
pub mod Cluster
pub mod Platform
