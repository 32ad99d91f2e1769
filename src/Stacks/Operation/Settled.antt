-- ===== src/Stacks/Operation/Settled.antt =====
-- An operation that was dispatched is never left running.
use dockplane.Base.{
  ℕ, String, Bool, ◌≢◌, Option, Result-cases, inl, inr, List, ==_iff, string_eq, Result, ok, err,
  AppError, arith, All,
}
use dockplane.Operations.Registry.{MutationRegistry}
use dockplane.Stacks.Lifecycle.{
  StackLifecycleKind, StackLifecycleOutcome, applied, not_applied, needs_attention, unknown,
  ObservedRuntime,
}
use dockplane.Stacks.World.{StackRow, World}
use dockplane.Stacks.Removal.{Given}
use dockplane.Stacks.Removal.Settled.{Settled, Settled-update, Settled-fresh}
use dockplane.Stacks.Operation.{OperationGiven, DispatchedOperation, StackOperationOutcome}
use dockplane.Stacks.Operation.Checks.{operable, reachable_agent}
use dockplane.Stacks.Operation.Running.{
  operation_interrupted, record_applied, operation_not_applied, operation_needs_attention,
  settle_reading, dispatched_operation, run_locked, run_holding, run,
}
use dockplane.Stacks.Operation.Frames.{prepared_operation, dispatch_and_settle-by, run_locked-by}

settle_reading-Settled :
    (g : Given) (attempt : DispatchedOperation) (observed : List ObservedRuntime)
    (outcome : StackLifecycleOutcome) (failure : Option AppError) (w : World)
    → Settled g (settle_reading g attempt observed outcome failure w).1.operations
unfolding settle_reading operation_interrupted record_applied operation_needs_attention
    operation_not_applied
settle_reading-Settled g attempt observed (unknown reason) failure w =
    Settled-update g _ w.operations λ o. ground (arith, ==_iff {A = String} "interrupted" "running")
settle_reading-Settled g attempt observed applied failure w =
    Settled-update g _ w.operations λ o. ground (arith, ==_iff {A = String} "succeeded" "running")
settle_reading-Settled g attempt observed (needs_attention reason) failure w =
    Settled-update g _ w.operations
      λ o. ground (arith, ==_iff {A = String} "needs_attention" "running")
settle_reading-Settled g attempt observed not_applied failure w =
    Settled-update g _ w.operations λ o. ground (arith, ==_iff {A = String} "failed" "running")

module _ (started_after : String → String → Bool) (g : OperationGiven) where
  abbrev Closes : Result StackOperationOutcome × World → Type 0
  Closes r = Settled g.given r.1.operations

  run_locked-Closes :
      (operation : StackLifecycleKind) (stack : StackRow) (agent : String) (w : World)
      → All (λ o. o.id ≢ g.given.operation_id) w.operations
      → Closes (run_locked started_after g operation stack agent w)
  run_locked-Closes operation stack agent w fresh =
      run_locked-by started_after g Closes operation stack agent w
        (λ e. Settled-fresh g.given w.operations fresh)
        λ revision services fingerprint _ _ _.
          dispatch_and_settle-by started_after g Closes
            (dispatched_operation started_after g operation stack revision agent services
              fingerprint)
            (prepared_operation g operation stack revision fingerprint w)
            (λ code.
              unfold operation_interrupted in
              Settled-update g.given _ _
                λ o. ground (arith, ==_iff {A = String} "interrupted" "running"))
            λ failure. settle_reading-Settled g.given _ _ _ failure _

  holding-Closes :
      (operation : StackLifecycleKind) (stack : StackRow) (agent : String) (w : World)
      (lock : Result ℕ × MutationRegistry)
      → All (λ o. o.id ≢ g.given.operation_id) w.operations
      → Closes (run_holding started_after g operation stack agent w lock)
  unfolding run_holding
  holding-Closes operation stack agent w (err f, registry) fresh =
      Settled-fresh g.given w.operations fresh
  holding-Closes operation stack agent w (ok ticket, registry) fresh =
      run_locked-Closes operation stack agent (record w { registry = registry }) fresh

-- As long as the database takes every statement, and whatever starting, stopping or restarting a
-- stack then comes to, the operation that it inserts under a new id is not running when it returns.
pub run-Settled :
    (started_after : String → String → Bool) (g : OperationGiven) (operation : StackLifecycleKind)
    (stack_id : String) (w : World)
    → All (λ o. o.id ≢ g.given.operation_id) w.operations
    → Settled g.given (run started_after g operation stack_id w).1.operations
unfolding run
run-Settled started_after g operation stack_id w fresh = elim (Result-cases (operable w stack_id)) [
  | inr (e, refusal) ↦ rw (run, refusal) (Settled-fresh g.given w.operations fresh)
  | inl (stack, found) ↦ elim (Result-cases (reachable_agent w stack.host_id)) [
    | inr (e, off) ↦ rw (run, found, off) (Settled-fresh g.given w.operations fresh)
    | inl (agent, on) ↦
        rw (run, found, on) (holding-Closes started_after g operation stack agent w _ fresh)
  ]
]
