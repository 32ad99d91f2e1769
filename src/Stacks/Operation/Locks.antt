-- ===== src/Stacks/Operation/Locks.antt =====
-- The lock that an operation runs under is given back, whatever way it goes.
use dockplane.Base.{
  String, Bool, ◌≡◌, ◌≢◌, refl, ap, ◌∙◌, Option, some, Result-cases, inl, inr, List, AppError, get,
  ◌<>◌,
}
use dockplane.Operations.Registry.{release}
use dockplane.Operations.Registry.Balanced.{acquire-cases}
use dockplane.Stacks.Lifecycle.{
  StackLifecycleKind, StackLifecycleOutcome, applied, not_applied, needs_attention, unknown,
  ObservedRuntime,
}
use dockplane.Stacks.World.{StackRow, World}
use dockplane.Stacks.Removal.{Given}
use dockplane.Stacks.Removal.Running.{record_audit, resync}
use dockplane.Stacks.Removal.Locks.{resync-registry}
use dockplane.Stacks.Operation.{OperationGiven, DispatchedOperation, kind_name}
use dockplane.Stacks.Operation.Checks.{operable, reachable_agent}
use dockplane.Stacks.Operation.Running.{
  operation_started, operation_interrupted, record_applied, operation_not_applied,
  operation_needs_attention, settle_reading, observe, outcome_read, dispatch_and_settle,
  dispatched_operation, run_locked, run_holding, run,
}
use dockplane.Stacks.Operation.Frames.{
  asked, prepared_operation, dispatch_and_settle-by, run_locked-by,
}

settle_reading-registry :
    (g : Given) (attempt : DispatchedOperation) (observed : List ObservedRuntime)
    (outcome : StackLifecycleOutcome) (failure : Option AppError) (w : World)
    → (settle_reading g attempt observed outcome failure w).1.registry ≡ w.registry
unfolding settle_reading operation_interrupted record_applied operation_needs_attention
    operation_not_applied
settle_reading-registry g attempt observed (unknown reason) failure w = refl
settle_reading-registry g attempt observed applied failure w = refl
settle_reading-registry g attempt observed (needs_attention reason) failure w = refl
settle_reading-registry g attempt observed not_applied failure w = refl

module _ (started_after : String → String → Bool) (g : OperationGiven) where
  dispatch_and_settle-registry :
      (attempt : DispatchedOperation) (w : World)
      → (dispatch_and_settle started_after g attempt w).1.registry ≡ w.registry
  dispatch_and_settle-registry attempt w =
      dispatch_and_settle-by started_after g (λ r. r.1.registry ≡ w.registry) attempt w
        (λ code. unfold operation_interrupted in refl)
        λ failure.
          settle_reading-registry g.given attempt
            (observe started_after g attempt (asked attempt w))
            (outcome_read started_after g attempt (asked attempt w)) failure
            (resync g.given attempt.stack.host_id (asked attempt w)).1
          ∙ resync-registry g.given attempt.stack.host_id (asked attempt w)

  run_locked-registry :
      (operation : StackLifecycleKind) (stack : StackRow) (agent : String) (w : World)
      → (run_locked started_after g operation stack agent w).1.registry ≡ w.registry
  run_locked-registry operation stack agent w =
      run_locked-by started_after g (λ r. r.1.registry ≡ w.registry) operation stack agent w
        (λ e. refl)
        λ revision services fingerprint _ _ _.
          dispatch_and_settle-registry
            (dispatched_operation started_after g operation stack revision agent services
              fingerprint)
            (prepared_operation g operation stack revision fingerprint w)
          ∙ (unfold record_audit in unfold operation_started in refl)

-- Whatever starting, stopping or restarting a stack comes to, every lock is held afterwards exactly
-- as it was before, when the stack's lock is not held under the empty name.
pub run_unlocks :
    (started_after : String → String → Bool) (g : OperationGiven) (operation : StackLifecycleKind)
    (stack_id : String) (w : World) (k : String)
    → get w.registry.held ("stack:" <> stack_id) ≢ some ""
    → get (run started_after g operation stack_id w).1.registry.held k ≡ get w.registry.held k
unfolding run run_holding get
run_unlocks started_after g operation stack_id w k named =
    elim (Result-cases (operable w stack_id)) [
      | inr (e, refusal) ↦ rw (run, refusal) refl
      | inl (stack, found) ↦ elim (Result-cases (reachable_agent w stack.host_id)) [
        | inr (e, off) ↦ rw (run, found, off) refl
        | inl (agent, on) ↦
            elim (acquire-cases w.registry ("stack:" <> stack_id) (kind_name operation) named) [
              | inl (e, taken) ↦ rw (run, found, on, taken) refl
              | inr (n, r, taken, back) ↦
                  let kept =
                    run_locked-registry started_after g operation stack agent
                      (record w { registry = r }) in
                  rw (run, found, on, taken) (ap (λ s. get (release n s).held k) kept ∙ back k)
            ]
      ]
    ]
