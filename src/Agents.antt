-- ===== src/Agents.antt =====
-- api/src/agents: the connections of the agents on the hosts, and what is asked of them.
pub mod Capabilities
pub mod Connections
pub mod Dispatch
