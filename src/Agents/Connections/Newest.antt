-- ===== src/Agents/Connections/Newest.antt =====
-- The newest connection of an agent wins (api/src/agents/connection-manager.service.ts).
use dockplane.Base.{
  if◌then◌else◌, ◌==◌, ℕ, String, ◌≡◌, refl, ◌≢◌, false, Option, none, some, List, [], ◌∷◌, ◌++◌,
  arith, ==_iff, string_eq, nat_eq, inl, inr, In, get, get-put,
}
use dockplane.Agents.Connections.{
  AgentConnection, Connections, destroy, replace_previous, register, release,
}

In-last : (xs : List ℕ) (x : ℕ) → In x (xs ++ x ∷ [])
In-last [] x = inl refl
In-last (y ∷ xs) x = inr (In-last xs x)

-- A connection that is replaced by one on another socket is closed.
replaced_closed :
    (previous : AgentConnection) (socket : ℕ) (c : Connections)
    → previous.socket ≢ socket
    → In previous.socket (replace_previous (some previous) socket c).destroyed
unfolding replace_previous destroy
replaced_closed previous socket c other =
    ground (arith, ==_iff previous.socket socket, In-last c.destroyed previous.socket)

replace_previous-connections :
    (o : Option AgentConnection) (socket : ℕ) (c : Connections)
    → (replace_previous o socket c).connections ≡ c.connections
unfolding replace_previous destroy
replace_previous-connections none socket c = refl
replace_previous-connections (some previous) socket c = ground arith

closed_of_found :
    (o : Option AgentConnection) (previous : AgentConnection) (socket : ℕ) (c : Connections)
    → o ≡ some previous
    → previous.socket ≢ socket
    → In previous.socket (replace_previous o socket c).destroyed
closed_of_found o previous socket c found apart = rw found (replaced_closed previous socket c apart)

-- The connection registered is on the socket given and is the one of the agent from then on; those
-- of other agents are as they were.
register_newest :
    (agent : String) (socket : ℕ) (address : Option String) (now : ℕ) (c : Connections)
    (other : String)
    → let r = register agent socket address now c in
      (r.0.socket ≡ socket)
      × (get r.1.connections other ≡ (if agent == other then some r.0 else get c.connections other))
unfolding register
register_newest agent socket address now c other = (
  refl,
  ground (
    arith,
    get-put kept agent connection other,
    replace_previous-connections (get c.connections agent) socket c,
  ),
)
  where
    connection : AgentConnection
    connection = (register agent socket address now c).0

    kept : List (String × AgentConnection)
    kept = (replace_previous (get c.connections agent) socket c).connections

-- The connection that an agent had on another socket is closed when it registers again.
register_closes :
    (agent : String) (socket : ℕ) (address : Option String) (now : ℕ) (c : Connections)
    (previous : AgentConnection)
    → get c.connections agent ≡ some previous
    → previous.socket ≢ socket
    → In previous.socket (register agent socket address now c).1.destroyed
unfolding register
register_closes agent socket address now c previous found apart =
    closed_of_found (get c.connections agent) previous socket c found apart

release_apart :
    (agent : String) (socket : ℕ) (current : AgentConnection) (c : Connections)
    → get c.connections agent ≡ some current
    → current.socket ≢ socket
    → release agent socket c ≡ (false, c)
unfolding release get
release_apart agent socket current c found apart =
    rw (found, release) ground (arith, ==_iff current.socket socket)

-- A connection is given up only by the socket it is on: when the agent has come back on another
-- socket meanwhile, the end of the old one says so and changes nothing.
release_stale :
    (agent : String) (old new now : ℕ) (address : Option String) (c : Connections)
    → old ≢ new
    → let r = register agent new address now c in release agent old r.1 ≡ (false, r.1)
release_stale agent old new now address c other =
    let r = register agent new address now c in
    let (on, found) = register_newest agent new address now c agent in
    release_apart agent old r.0 r.1 (ground (arith, ==_iff agent agent)) (ground arith)
