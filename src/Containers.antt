-- ===== src/Containers.antt =====
-- api/src/containers: mutations of one container, and what an unfinished one turned out to mean.
pub mod Recovery
pub mod Store
pub mod Finalizer
pub mod Guard
pub mod Reconciliation
