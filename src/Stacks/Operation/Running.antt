-- ===== src/Stacks/Operation/Running.antt =====
-- What api/src/stacks/stack-lifecycle.service.ts writes, and the operation itself. The writes of a
-- transaction are one step. Every statement on the database succeeds: what becomes of an operation
-- when an insert of an audit entry or of an event throws, which nothing in the code guards, is left
-- out.
use dockplane.Base.{
  ℕ, String, Bool, true, false, Option, none, some, List, [], ◌∷◌, ◌++◌, map, filter, ◌==◌,
  string_eq, is_some, or_else, if◌then◌else◌, has, update_where, Result, ok, err, AppError,
  conflict, ◌<>◌,
}
use dockplane.Operations.Registry.{MutationRegistry, acquire, release}
use dockplane.Stacks.Lifecycle.{
  StackLifecycleKind, start, stop, restart, StackLifecycleOutcome, applied, not_applied,
  needs_attention, unknown, ObservedRuntime, RuntimeFingerprint, classify_stack_lifecycle,
}
use dockplane.Stacks.World.{StackRow, ServiceDetail, World, Reply, answered, broken, refused}
use dockplane.Stacks.Removal.{Given}
use dockplane.Stacks.Removal.Checks.{has_unresolved_operation}
use dockplane.Stacks.Removal.Running.{
  record_audit, record_event, update_operation, update_action, resync, started_elsewhere,
  unknown_outcome,
}
use dockplane.Stacks.Operation.{
  OperationGiven, StackService, DispatchedOperation, StackOperationOutcome, capability_of,
  kind_name, result_status, failed_code, past, event_of, audit_requested, audit_succeeded,
  audit_failed,
}
use dockplane.Stacks.Operation.Checks.{
  operable, reachable_agent, stack_services, fingerprint_for, observed_runtime,
}

abbrev pub is_restart : StackLifecycleKind → Bool
is_restart restart = true
is_restart start = false
is_restart stop = false

unfoldable pub set_stack_status : String → String → World → World
set_stack_status stack_id status w = record w {
  stacks = update_where (λ s. s.id == stack_id) (λ s. record s { status = status }) w.stacks;
}

-- The action and the operation are inserted.
unfoldable pub operation_started :
    Given
    → StackRow
    → String
    → StackLifecycleKind
    → Option (List RuntimeFingerprint)
    → World
    → World
operation_started g stack revision_id operation fingerprint w = record w {
  actions =
      w.actions
      ++ record {
        id = g.action_id;
        capability = capability_of operation;
        target_id = stack.id;
        status = "running";
        completed_at = none;
        error_code = none;
      }
        ∷ [];
  operations =
      w.operations
      ++ record {
        id = g.operation_id;
        stack_id = stack.id;
        revision_id = revision_id;
        type = kind_name operation;
        status = "running";
        action_id = some g.action_id;
        fingerprint = fingerprint;
        detail = none;
        failure_code = none;
        resolved_at = none;
      }
        ∷ [];
}

unfoldable pub operation_interrupted :
    Given → DispatchedOperation → String → World → Result StackOperationOutcome × World
unfolding record_audit update_operation
operation_interrupted g attempt code w =
    let marked =
      update_operation g (λ o. record o { status = "interrupted"; failure_code = some code }) w in
    (
      err (record {
        code = "OPERATION_OUTCOME_UNKNOWN";
        message =
            "The request reached the host but its result did not come back. Dockplane will establish what happened from the host and will not repeat the operation; the stack accepts no further operations until then.";
        status = 503;
      }),
      record_audit g attempt.stack "stack.operation.interrupted" "failure" (some g.operation_id)
          marked,
    )

-- The services that have a container, as the operation's detail keeps them.
unfoldable pub detail_of : List ObservedRuntime → List ServiceDetail
detail_of observed =
    map
      (λ s. record {
        service_name = s.service_name;
        container_id = s.container_id;
        state = s.state;
      })
      (filter (λ (s : ObservedRuntime). is_some s.docker_id) observed)

unfoldable pub record_applied : Given → DispatchedOperation → List ServiceDetail → World → World
unfolding record_audit record_event update_operation update_action set_stack_status
record_applied g attempt detail w =
    let closed =
      update_action g (λ a. record a { status = "succeeded"; completed_at = some g.now })
        (set_stack_status attempt.stack.id (result_status attempt.operation) (
          update_operation g
            (λ o. record o { status = "succeeded"; detail = some detail; resolved_at = some g.now })
            w)) in
    record_event
      (record {
        type = event_of attempt.operation;
        severity = none;
        resource = "stack:" <> attempt.stack.id;
        message =
            attempt.stack.name
            <> " was "
            <> past attempt.operation
            <> " by "
            <> g.actor_label
            <> ".";
        correlation_id = g.operation_id;
      })
      (record_audit g attempt.stack (audit_succeeded attempt.operation) "success"
        (some g.operation_id) closed)

unfoldable pub operation_not_applied :
    Given → DispatchedOperation → List ServiceDetail → Option AppError → World → World
unfolding record_audit record_event update_operation update_action
operation_not_applied g attempt detail failure w =
    let code : Option String = elim failure [ none ↦ none | some e ↦ some e.code ] in
    let closed =
      update_action g
        (λ a. record a { status = "failed"; completed_at = some g.now; error_code = code })
        (update_operation g
          (λ o. record o {
            status = "failed";
            detail = some detail;
            failure_code = some (or_else code (failed_code attempt.operation));
            resolved_at = some g.now;
          })
          w) in
    record_event
      (record {
        type = "stack.operation.failed";
        severity = some "warning";
        resource = "stack:" <> attempt.stack.id;
        message =
            attempt.stack.name
            <> " was not "
            <> past attempt.operation
            <> ": the host is as it was.";
        correlation_id = g.operation_id;
      })
      (record_audit g attempt.stack (audit_failed attempt.operation) "failure" (some g.operation_id)
        closed)

unfoldable pub operation_needs_attention :
    Given → DispatchedOperation → List ServiceDetail → String → World → World
unfolding record_audit record_event update_operation update_action set_stack_status
operation_needs_attention g attempt detail reason w =
    let closed =
      update_action g
        (λ a. record a {
          status = "failed";
          completed_at = some g.now;
          error_code = some "STACK_LIFECYCLE_PARTIAL";
        })
        (set_stack_status attempt.stack.id "needs_attention" (
          update_operation g
            (λ o. record o {
              status = "needs_attention";
              detail = some detail;
              failure_code = some "STACK_LIFECYCLE_PARTIAL";
              resolved_at = some g.now;
            })
            w)) in
    record_event
      (record {
        type = "stack.operation.failed";
        severity = some "critical";
        resource = "stack:" <> attempt.stack.id;
        message = attempt.stack.name <> " needs attention: " <> reason <> ".";
        correlation_id = g.operation_id;
      })
      (record_audit g attempt.stack "stack.operation.needs_attention" "failure"
        (some g.operation_id) closed)

abbrev pub not_changed : StackLifecycleKind → Option AppError → AppError
not_changed operation none = record {
  code = failed_code operation;
  message = "The stack was not changed.";
  status = 409;
}
not_changed operation (some e) =
    if e.code == "STACK_STATE_AMBIGUOUS"
    then conflict "STACK_REPAIR_AMBIGUOUS"
        "The containers of this stack on its host do not add up. Dockplane will not guess which ones it means; resolve it on the host and try again."
    else if e.code == "STACK_SERVICE_MISSING"
    then conflict "STACK_SERVICE_MISSING"
        "A service of this stack has no container on its host. Deploy a revision to it rather than starting what is not there."
    else record { code = failed_code operation; message = e.message; status = 409 }

-- `settle`, by the outcome.
unfoldable pub settle_reading :
    Given
    → DispatchedOperation
    → List ObservedRuntime
    → StackLifecycleOutcome
    → Option AppError
    → World
    → Result StackOperationOutcome × World
settle_reading g attempt observed (unknown reason) failure w =
    operation_interrupted g attempt "HOST_NOT_READABLE" w
settle_reading g attempt observed applied failure w = (
  ok (record {
    operation_id = g.operation_id;
    stack_id = attempt.stack.id;
    operation = attempt.operation;
    services =
        map (λ s. record { service_name = s.service_name; state = s.state })
          (filter (λ (s : ObservedRuntime). is_some s.docker_id) observed);
  }),
  record_applied g attempt (detail_of observed) w,
)
settle_reading g attempt observed (needs_attention reason) failure w = (
  err (record {
    code = "STACK_LIFECYCLE_PARTIAL";
    message =
        "Part of this stack moved and part of it did not. Nothing was undone; it accepts no further operations until somebody applies a revision to it.";
    status = 409;
  }),
  operation_needs_attention g attempt (detail_of observed) reason w,
)
settle_reading g attempt observed not_applied failure w = (
  err (not_changed attempt.operation failure),
  operation_not_applied g attempt (detail_of observed) failure w,
)

module _ (started_after : String → String → Bool) (g : OperationGiven) where
  abbrev pub observe : DispatchedOperation → World → List ObservedRuntime
  observe attempt w =
      observed_runtime (resync g.given attempt.stack.host_id w).1 g.detail_after
        (is_restart attempt.operation) attempt.stack.id

  abbrev pub outcome_read : DispatchedOperation → World → StackLifecycleOutcome
  outcome_read attempt w = classify_stack_lifecycle started_after (record {
    operation = attempt.operation;
    revision_id = attempt.revision_id;
    expected_services = attempt.expected_services;
    observed = observe attempt w;
    fingerprint = attempt.fingerprint;
    snapshot_complete = (resync g.given attempt.stack.host_id w).0;
  })

  unfoldable pub settle_observed :
      DispatchedOperation → Option AppError → World → Result StackOperationOutcome × World
  settle_observed attempt failure w =
      settle_reading g.given attempt (observe attempt w) (outcome_read attempt w) failure
        (resync g.given attempt.stack.host_id w).1

  unfoldable pub after_operation_reply :
      DispatchedOperation → Reply → World → Result StackOperationOutcome × World
  after_operation_reply attempt answered w = settle_observed attempt none w
  after_operation_reply attempt broken w = settle_observed attempt none w
  after_operation_reply attempt (refused e) w =
      if has unknown_outcome e.code
      then operation_interrupted g.given attempt e.code w
      else settle_observed attempt (some e) w

  unfoldable pub dispatch_and_settle :
      DispatchedOperation → World → Result StackOperationOutcome × World
  dispatch_and_settle attempt w = after_operation_reply attempt g.given.reply (record w {
    requests =
        w.requests
        ++ record {
          agent_id = attempt.agent_id;
          capability = capability_of attempt.operation;
          plan = attempt.plan;
        }
          ∷ [];
  })

  unfoldable pub dispatched_operation :
      StackLifecycleKind
      → StackRow
      → String
      → String
      → List StackService
      → Option (List RuntimeFingerprint)
      → DispatchedOperation
  dispatched_operation operation stack revision_id agent_id services fingerprint = record {
    operation = operation;
    stack = stack;
    revision_id = revision_id;
    expected_services = map (λ s. s.service_name) services;
    fingerprint = fingerprint;
    agent_id = agent_id;
    plan = record {
      stack_id = stack.id;
      revision_id = revision_id;
      services =
          map
            (λ s. record {
              service_name = s.service_name;
              container_id = s.container_id;
              depends_on = s.depends_on;
            })
            services;
    };
  }

  -- `prepare`, the audit entry and the request.
  unfoldable pub run_prepared :
      StackLifecycleKind
      → StackRow
      → String
      → String
      → List StackService
      → Option (List RuntimeFingerprint)
      → World
      → Result StackOperationOutcome × World
  run_prepared operation stack revision_id agent_id services fingerprint w =
      if has_unresolved_operation w stack.id
      then (err started_elsewhere, w)
      else dispatch_and_settle
          (dispatched_operation operation stack revision_id agent_id services fingerprint)
          (record_audit g.given stack (audit_requested operation) "success"
            (some g.given.operation_id)
            (operation_started g.given stack revision_id operation fingerprint w))

  -- The body of `run`, while the lock is held.
  unfoldable pub run_locked :
      StackLifecycleKind → StackRow → String → World → Result StackOperationOutcome × World
  run_locked operation stack agent_id w =
      let revision_id = or_else stack.current_revision_id "" in
      elim (stack_services w stack.id revision_id) [
        | err e ↦ (err e, w)
        | ok services ↦ elim (fingerprint_for operation g.detail_before services) [
          | err e ↦ (err e, w)
          | ok fingerprint ↦
              run_prepared operation stack revision_id agent_id services fingerprint w
        ]
      ]

  -- From the lock on: it is released whatever the operation comes to.
  unfoldable pub run_holding :
      StackLifecycleKind
      → StackRow
      → String
      → World
      → Result ℕ × MutationRegistry
      → Result StackOperationOutcome × World
  run_holding operation stack agent_id w (err e, registry) =
      (err e, record w { registry = registry })
  run_holding operation stack agent_id w (ok ticket, registry) =
      let (result, after) =
        run_locked operation stack agent_id (record w { registry = registry }) in
      (result, record after { registry = release ticket after.registry })

  unfoldable pub run : StackLifecycleKind → String → World → Result StackOperationOutcome × World
  run operation stack_id w = elim (operable w stack_id) [
    | err e ↦ (err e, w)
    | ok stack ↦ elim (reachable_agent w stack.host_id) [
      | err e ↦ (err e, w)
      | ok agent_id ↦
          run_holding operation stack agent_id w
            (acquire ("stack:" <> stack_id) (kind_name operation) w.registry)
    ]
  ]
