-- ===== src/Stacks/Removal.antt =====
-- api/src/stacks/stack-delete.service.ts: deleting a stack, with the tables, the lock, the dispatch
-- and the reading of the host that it works on. What the agent answers, what reading the host does
-- to the containers, the time and the new rows' ids are given with the request.
pub mod Checks
pub mod Running
pub mod Frames
pub mod Locks
pub mod Gone
pub mod Targets
pub mod Requests
pub mod Kept
pub mod Settled
mod Tests
use dockplane.Base.{ℕ, String, Bool, Option, List}
use dockplane.Stacks.World.{ContainerRow, AgentRequest, Reply}

-- `discovery.sync` changes the containers, and says whether it was complete, unless it throws. It
-- reads the host as the requests that were sent until then have left it.
pub record Given : Type 0 where
  pub actor_label : String
  pub now : ℕ
  pub action_id : String
  pub operation_id : String
  pub reply : Reply
  pub sync : List AgentRequest → List ContainerRow → List ContainerRow × Option Bool

pub record StackDeleteResult : Type 0 where
  pub stack_id : String
  pub retained_volumes : List String
