-- ===== src/Operations.antt =====
-- api/src/operations: the operations that change a container, and the lock they take.
pub mod Registry
