-- ===== src/Stacks/Removal/Gone.antt =====
-- A stack is deleted only when nothing of it is left on its host.
use dockplane.Base.{
  is_blank, String, true, ◌≡◌, ◌≢◌, ◌⊎◌, none, some, List, string_eq, option_eq, Result, ok, All,
}
use dockplane.Stacks.Removal.Requests.{AsksRemoval}
use dockplane.Stacks.World.{AgentRequest, StackRow, World, ContainerRow}
use dockplane.Stacks.Removal.{Given, StackDeleteResult}

-- No container of the stack is on its host.
abbrev pub GoneFrom : String → List ContainerRow → Type 0
GoneFrom stack_id rows = All (λ c. c.stack_id ≡ some stack_id → c.docker_id ≡ none) rows

-- The stack and its containers are not in the tables.
abbrev pub Purged : String → World → Type 0
Purged stack_id w =
    All (λ s. s.id ≢ stack_id) w.stacks × All (λ c. c.stack_id ≢ some stack_id) w.containers

-- The host, read after the requests, was read completely and showed no container of the stack.
abbrev pub ReadGone : Given → String → List AgentRequest → List ContainerRow → Type 0
ReadGone g stack_id requests rows =
    ((g.sync requests rows).1 ≡ some true) × GoneFrom stack_id (g.sync requests rows).0

-- No revision is recorded as deployed, no container of the stack is on its host, and nothing was
-- asked of an agent.
abbrev pub NeverDeployed : StackRow → World → World → Type 0
NeverDeployed stack w after =
    (is_blank stack.current_revision_id ≡ true)
    × GoneFrom stack.id w.containers
    × (after.requests ≡ w.requests)

-- The removal was asked of the agent, and the reading of the host after that showed nothing.
abbrev pub Removed : Given → StackRow → World → World → Type 0
Removed g stack w after =
    AsksRemoval stack w after × ReadGone g stack.id after.requests w.containers

abbrev Deleted :
    Given → StackRow → World → StackDeleteResult → Result StackDeleteResult × World → Type 0
Deleted g stack w result r =
    r.0 ≡ ok result → (NeverDeployed stack w r.1 ⊎ Removed g stack w r.1) × Purged stack.id r.1
