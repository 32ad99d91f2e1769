-- ===== src/Agents/Connections/Tests.antt =====
-- Runs of api/src/agents/connection-manager.service.ts, and the theorems about it at these runs.
use dockplane.Base.{string_eq, none, some, []}
use dockplane.Agents.Connections.{AgentConnection, Connections, register}

-- The agent "a1" is connected on socket 7.
abbrev connected : Connections
connected = (register "a1" 7 none 100 (record { connections = []; destroyed = [] })).1

abbrev replaced : AgentConnection × Connections
replaced = register "a1" 8 (some "10.0.0.2") 200 connected
