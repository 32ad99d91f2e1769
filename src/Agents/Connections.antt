-- ===== src/Agents/Connections.antt =====
-- api/src/agents/connection-manager.service.ts: the live connection of each agent.
-- A socket is a number that stands for the object; `destroyed` lists those that were destroyed.
pub mod Newest
mod Tests
use dockplane.Base.{
  ℕ, String, Bool, true, false, Option, none, some, List, [], ◌∷◌, ◌++◌, map, ◌==◌, ◌!=◌, nat_eq,
  is_some, if◌then◌else◌, length, get, put, drop_key, keys,
}

pub record AgentConnection : Type 0 where
  pub agent_id : String
  pub socket : ℕ
  pub connected_at : ℕ
  pub remote_address : Option String

pub record Connections : Type 0 where
  pub connections : List (String × AgentConnection)
  pub destroyed : List ℕ

pub destroy : ℕ → Connections → Connections
destroy socket c = record c { destroyed = c.destroyed ++ socket ∷ [] }

-- The earlier connection of the agent is closed, unless it is on the same socket.
pub replace_previous : Option AgentConnection → ℕ → Connections → Connections
replace_previous none socket c = c
replace_previous (some previous) socket c =
    if previous.socket != socket then destroy previous.socket c else c

pub register : String → ℕ → Option String → ℕ → Connections → AgentConnection × Connections
register agent socket address now c =
    (connection, record closed { connections = put closed.connections agent connection })
  where
    connection : AgentConnection
    connection = record {
      agent_id = agent;
      socket = socket;
      connected_at = now;
      remote_address = address;
    }

    closed : Connections
    closed = replace_previous (get c.connections agent) socket c

pub release : String → ℕ → Connections → Bool × Connections
release agent socket c = elim (get c.connections agent) [
  | none ↦ (false, c)
  | some current ↦
      if current.socket == socket
      then (true, record c { connections = drop_key c.connections agent })
      else (false, c)
]

pub disconnect : String → Connections → Bool × Connections
disconnect agent c = elim (get c.connections agent) [
  | none ↦ (false, c)
  | some connection ↦
      (true, record (destroy connection.socket c) { connections = drop_key c.connections agent })
]

pub is_connected : Connections → String → Bool
is_connected c agent = is_some (get c.connections agent)

pub count : Connections → ℕ
count c = length c.connections

pub connected_agent_ids : Connections → List String
connected_agent_ids c = keys c.connections

pub close_all : Connections → Connections
close_all c = record {
  connections = [];
  destroyed = c.destroyed ++ map (λ e. e.1.socket) c.connections;
}
