-- ===== src/Stacks/Operation/Frames.antt =====
-- The ways an operation goes: what holds at the end of each of them holds of the operation.
use dockplane.Base.{
  String, Bool, ◌≡◌, refl, Option, none, some, Bool-cases, Result-cases, inl, inr, List, [], ◌∷◌,
  ◌++◌, string_eq, or_else, has, Result, ok, err, AppError,
}
use dockplane.Stacks.Lifecycle.{StackLifecycleKind, RuntimeFingerprint}
use dockplane.Stacks.World.{StackRow, World, Reply, answered, broken, refused}
use dockplane.Stacks.Removal.Checks.{has_unresolved_operation}
use dockplane.Stacks.Removal.Running.{record_audit, resync, started_elsewhere, unknown_outcome}
use dockplane.Stacks.Operation.{
  OperationGiven, StackService, DispatchedOperation, StackOperationOutcome, capability_of,
  audit_requested,
}
use dockplane.Stacks.Operation.Checks.{stack_services, fingerprint_for}
use dockplane.Stacks.Operation.Running.{
  operation_started, operation_interrupted, settle_reading, observe, outcome_read, settle_observed,
  after_operation_reply, dispatch_and_settle, dispatched_operation, run_prepared, run_locked,
}

-- The state that the reply of the agent meets.
abbrev pub asked : DispatchedOperation → World → World
asked attempt w = record w {
  requests =
      w.requests
      ++ record {
        agent_id = attempt.agent_id;
        capability = capability_of attempt.operation;
        plan = attempt.plan;
      }
        ∷ [];
}

-- The state in which the request is sent.
abbrev pub prepared_operation :
    OperationGiven
    → StackLifecycleKind
    → StackRow
    → String
    → Option (List RuntimeFingerprint)
    → World
    → World
prepared_operation g operation stack revision_id fingerprint w =
    record_audit g.given stack (audit_requested operation) "success" (some g.given.operation_id)
      (operation_started g.given stack revision_id operation fingerprint w)

module _ (started_after : String → String → Bool) (g : OperationGiven)
    (Q : Result StackOperationOutcome × World → Type 0) where
  module _ (attempt : DispatchedOperation) (w : World) where
    abbrev pub WhenLost : Type 0
    WhenLost = (code : String) → Q (operation_interrupted g.given attempt code (asked attempt w))

    abbrev pub WhenRead : Type 0
    WhenRead =
        (failure : Option AppError)
        → Q (
            settle_reading g.given attempt (observe started_after g attempt (asked attempt w))
              (outcome_read started_after g attempt (asked attempt w)) failure
              (resync g.given attempt.stack.host_id (asked attempt w)).1)

    by_reply :
        (reply : Reply)
        → WhenLost
        → WhenRead
        → Q (after_operation_reply started_after g attempt reply (asked attempt w))
    unfolding after_operation_reply settle_observed
    by_reply answered lost read = read none
    by_reply broken lost read = read none
    by_reply (refused e) lost read = elim (Bool-cases (has unknown_outcome e.code)) [
      | inl gone ↦ rw (after_operation_reply, gone) (lost e.code)
      | inr told ↦ rw (after_operation_reply, told) (read (some e))
    ]

    pub dispatch_and_settle-by :
        WhenLost → WhenRead → Q (dispatch_and_settle started_after g attempt w)
    unfolding dispatch_and_settle
    dispatch_and_settle-by = by_reply g.given.reply

  module _ (operation : StackLifecycleKind) (stack : StackRow) (agent : String) (w : World) where
    abbrev pub WhenRefused : Type 0
    WhenRefused = (e : AppError) → Q (err e, w)

    abbrev pub WhenSent : Type 0
    WhenSent =
        (revision : String) (services : List StackService)
        (fingerprint : Option (List RuntimeFingerprint))
        → revision ≡ or_else stack.current_revision_id ""
        → stack_services w stack.id revision ≡ ok services
        → fingerprint_for operation g.detail_before services ≡ ok fingerprint
        → Q (
            dispatch_and_settle started_after g
              (dispatched_operation started_after g operation stack revision agent services
                fingerprint)
              (prepared_operation g operation stack revision fingerprint w))

    pub run_locked-by :
        WhenRefused → WhenSent → Q (run_locked started_after g operation stack agent w)
    unfolding run_locked run_prepared
    run_locked-by refusal send =
        let revision = or_else stack.current_revision_id "" in
        elim (Result-cases (stack_services w stack.id revision)) [
          | inr (e, missing) ↦ rw (run_locked, missing) (refusal e)
          | inl (services, found) ↦
              elim (Result-cases (fingerprint_for operation g.detail_before services)) [
                | inr (e, unread) ↦ rw (run_locked, found, unread) (refusal e)
                | inl (fingerprint, taken) ↦
                    elim (Bool-cases (has_unresolved_operation w stack.id)) [
                      | inl busy ↦
                          rw (run_locked, found, taken, run_prepared, busy)
                            (refusal started_elsewhere)
                      | inr free ↦
                          rw (run_locked, found, taken, run_prepared, free)
                            (send revision services fingerprint refl found taken)
                    ]
              ]
        ]
