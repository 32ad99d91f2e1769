-- ===== src/Stacks.antt =====
-- api/src/stacks: what a host shows of a stack, and what is concluded from it.
pub mod Lifecycle
pub mod Apply
pub mod Delete
pub mod World
pub mod Removal
pub mod Operation
pub mod Plan
