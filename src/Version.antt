-- ===== src/Version.antt =====
-- api/src/version and api/src/stacks/stack-attribution.ts: reading and ordering release versions,
-- the agent release that stack operations need, and the summary of what the agents run.
pub mod Codes
pub mod Numbers
pub mod Semver
pub mod Decimal
pub mod Order
mod Printing
mod Solid
pub mod Reading
pub mod Attribution
pub mod Fleet
pub mod Tests
