-- ===== src/Stacks/Operation/Applied.antt =====
-- What success of an operation means.
use dockplane.Base.{
  ◌++◌, Any, or_else, option_eq, String, Bool, ◌≡◌, Option, List, [], ◌∷◌, string_eq, Result, ok,
  All,
}
use dockplane.Stacks.Lifecycle.{StackLifecycleKind, applied, RuntimeFingerprint}
use dockplane.Stacks.World.{StackRow, World}
use dockplane.Stacks.Removal.{Given}
use dockplane.Stacks.Operation.{
  capability_of, OperationGiven, StackService, StackOperationOutcome, result_status,
}
use dockplane.Stacks.Operation.Checks.{stack_services, fingerprint_for}
use dockplane.Stacks.Operation.Running.{outcome_read, dispatched_operation}
use dockplane.Stacks.Operation.Frames.{asked as sent_on}

-- What a successful operation leaves: there is its row, which says that it succeeded, and there is
-- its stack's row, which has the status that the operation leads to.
abbrev pub Succeeded : Given → StackLifecycleKind → String → World → Type 0
Succeeded g operation stack_id w =
    Any (λ o. o.id ≡ g.operation_id) w.operations
    × All (λ o. o.id ≡ g.operation_id → o.status ≡ "succeeded") w.operations
    × Any (λ s. s.id ≡ stack_id) w.stacks
    × All (λ s. s.id ≡ stack_id → s.status ≡ result_status operation) w.stacks

-- The rows of the operation and of the stack.
abbrev HasRows : Given → String → World → Type 0
HasRows g stack_id w =
    Any (λ o. o.id ≡ g.operation_id) w.operations × Any (λ s. s.id ≡ stack_id) w.stacks

module _ (started_after : String → String → Bool) (g : OperationGiven)
    (result : StackOperationOutcome) where
  -- The agent was asked for the operation on the services of the deployed revision, and the host,
  -- read after that, shows that it was applied to them; `before` and `seen` are the states in which
  -- the services were looked up and in which the host was read.
  abbrev pub ShownApplied : StackLifecycleKind → StackRow → World → Type 0
  ShownApplied operation stack w =
      (before : World) × (seen : World) × (agent : String) × (services : List StackService)
      × (fingerprint : Option (List RuntimeFingerprint)) × (before.containers ≡ w.containers)
      × (before.revisions ≡ w.revisions)
      × (stack_services before stack.id (or_else stack.current_revision_id "") ≡ ok services)
      × (fingerprint_for operation g.detail_before services ≡ ok fingerprint)
      × (seen.containers ≡ w.containers)
      × (seen.agents ≡ w.agents)
      × (seen.requests
          ≡ w.requests
            ++ record {
              agent_id = agent;
              capability = capability_of operation;
              plan =
                  (dispatched_operation started_after g operation stack
                    (or_else stack.current_revision_id "") agent services fingerprint).plan;
            }
              ∷ [])
      × (outcome_read started_after g
            (dispatched_operation started_after g operation stack
              (or_else stack.current_revision_id "") agent services fingerprint)
            seen
          ≡ applied)

  abbrev Means :
      StackLifecycleKind → StackRow → World → Result StackOperationOutcome × World → Type 0
  Means operation stack w r =
      r.0 ≡ ok result → ShownApplied operation stack w × Succeeded g.given operation stack.id r.1
