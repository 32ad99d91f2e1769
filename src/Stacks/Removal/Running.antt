-- ===== src/Stacks/Removal/Running.antt =====
-- What api/src/stacks/stack-delete.service.ts writes, and the deletion itself. The writes of a
-- transaction are one step; the foreign keys of a stack's deployments, operations and revisions
-- delete them with it. Every statement on the database succeeds: what becomes of a deletion when an
-- insert of an audit entry or of an event throws, which nothing in the code guards, is left out.
use dockplane.Base.{
  ℕ, String, Bool, false, Option, none, some, List, [], ◌∷◌, ◌++◌, map, ◌==◌, string_eq, option_eq,
  or_else, if◌then◌else◌, has, update_where, delete_where, Result, ok, err, AppError, conflict,
  ◌<>◌,
}
use dockplane.Operations.Registry.{MutationRegistry, acquire, release}
use dockplane.Stacks.Delete.{
  StackDeleteOutcome, finalize_deleted, finalize_not_applied, needs_attention, unknown,
  classify_stack_delete,
}
use dockplane.Stacks.World.{
  StackRow, OperationRow, ActionRow, EventRow, World, DeployedService, LifecyclePlan, Reply,
  answered, broken, refused,
}
use dockplane.Stacks.Removal.{Given, StackDeleteResult}
use dockplane.Stacks.Removal.Checks.{
  deletable, volumes_of, agent_of, connected_agent, deployed_services, observed_claims,
  assert_nothing_left, has_unresolved_operation,
}

-- What a deletion that was dispatched is about.
pub record Attempt : Type 0 where
  pub stack : StackRow
  pub expected_services : List String
  pub retained_volumes : List String
  pub agent_id : String
  pub plan : LifecyclePlan

unfoldable pub record_audit : Given → StackRow → String → String → Option String → World → World
record_audit g stack action result reason_code w = record w {
  audit =
      w.audit
      ++ record {
        action = action;
        result = result;
        actor_label = g.actor_label;
        target_type = "stack";
        target_id = stack.id;
        target_label = stack.name;
        reason_code = reason_code;
      }
        ∷ [];
}

unfoldable pub record_event : EventRow → World → World
record_event event w = record w { events = w.events ++ event ∷ [] }

unfoldable pub update_operation : Given → (OperationRow → OperationRow) → World → World
update_operation g f w = record w {
  operations = update_where (λ o. o.id == g.operation_id) f w.operations;
}

unfoldable pub update_action : Given → (ActionRow → ActionRow) → World → World
update_action g f w = record w { actions = update_where (λ a. a.id == g.action_id) f w.actions }

-- `purge`, with what the database deletes with a stack.
unfoldable pub purge : String → World → World
purge stack_id w = record w {
  containers = delete_where (λ c. c.stack_id == some stack_id) w.containers;
  stacks = delete_where (λ s. s.id == stack_id) w.stacks;
  deployments = delete_where (λ d. d.stack_id == stack_id) w.deployments;
  operations = delete_where (λ o. o.stack_id == stack_id) w.operations;
  revisions = delete_where (λ r. r.stack_id == stack_id) w.revisions;
}

unfoldable pub delete_never_deployed :
    Given → StackRow → List String → World → Result StackDeleteResult × World
unfolding purge record_audit
delete_never_deployed g stack retained_volumes w = elim (assert_nothing_left w stack) [
  | err e ↦ (err e, w)
  | ok _ ↦ (
    ok (record { stack_id = stack.id; retained_volumes = retained_volumes }),
    record_audit g stack "stack.deleted" "success" none (purge stack.id w),
  )
]

-- The action and the operation are inserted.
unfoldable pub deletion_started : Given → StackRow → String → World → World
deletion_started g stack revision_id w = record w {
  actions =
      w.actions
      ++ record {
        id = g.action_id;
        capability = "stack.remove";
        target_id = stack.id;
        status = "running";
        completed_at = none;
        error_code = none;
      }
        ∷ [];
  operations =
      w.operations
      ++ record {
        id = g.operation_id;
        stack_id = stack.id;
        revision_id = revision_id;
        type = "delete";
        status = "running";
        action_id = some g.action_id;
        fingerprint = none;
        detail = none;
        failure_code = none;
        resolved_at = none;
      }
        ∷ [];
}

abbrev pub started_elsewhere : AppError
started_elsewhere =
    conflict "STACK_OPERATION_CONFLICT"
      "An operation on this stack was started elsewhere and has not been resolved yet."

-- `prepare` and `claimed`: the index allows one unresolved operation on a stack.
unfoldable pub prepare : Given → StackRow → String → World → Result World
prepare g stack revision_id w =
    if has_unresolved_operation w stack.id
    then err started_elsewhere
    else ok (deletion_started g stack revision_id w)

unfoldable pub deletion_interrupted :
    Given → Attempt → String → World → Result StackDeleteResult × World
unfolding record_audit update_operation
deletion_interrupted g attempt code w =
    let marked =
      update_operation g (λ o. record o { status = "interrupted"; failure_code = some code }) w in
    (
      err (record {
        code = "OPERATION_OUTCOME_UNKNOWN";
        message =
            "The request reached the host but its result did not come back. Dockplane will establish what happened from the host and will not repeat the operation; nothing has been deleted.";
        status = 503;
      }),
      record_audit g attempt.stack "stack.delete.interrupted" "failure" (some g.operation_id)
          marked,
    )

unfoldable pub record_not_applied : Given → Attempt → Option AppError → World → World
unfolding record_audit update_operation update_action
record_not_applied g attempt failure w =
    let code : Option String = elim failure [ none ↦ none | some e ↦ some e.code ] in
    let failed =
      update_operation g
        (λ o. record o {
          status = "failed";
          failure_code = some (or_else code "STACK_DELETE_FAILED");
          resolved_at = some g.now;
        })
        w in
    record_audit g attempt.stack "stack.delete.failed" "failure" (some g.operation_id) (
      update_action g
        (λ a. record a { status = "failed"; completed_at = some g.now; error_code = code }) failed)

unfoldable pub record_needs_attention : Given → Attempt → String → World → World
unfolding record_audit record_event update_operation update_action
record_needs_attention g attempt reason w =
    let settled =
      update_operation g
        (λ o. record o {
          status = "needs_attention";
          failure_code = some "STACK_DELETE_PARTIAL";
          resolved_at = some g.now;
        })
        w in
    let flagged = record settled {
      stacks =
          update_where (λ s. s.id == attempt.stack.id)
            (λ s. record s { status = "needs_attention" }) settled.stacks;
    } in
    let closed =
      update_action g
        (λ a. record a {
          status = "failed";
          completed_at = some g.now;
          error_code = some "STACK_DELETE_PARTIAL";
        })
        flagged in
    record_event
      (record {
        type = "stack.operation.failed";
        severity = some "critical";
        resource = "stack:" <> attempt.stack.id;
        message = attempt.stack.name <> " needs attention: " <> reason <> ".";
        correlation_id = g.operation_id;
      })
      (record_audit g attempt.stack "stack.delete.needs_attention" "failure" (some g.operation_id)
        closed)

-- `settle` on `finalize_deleted`.
unfoldable pub finish_deleted : Given → Attempt → World → World
unfolding record_audit record_event update_action purge
finish_deleted g attempt w =
    let closed =
      update_action g (λ a. record a { status = "succeeded"; completed_at = some g.now }) w in
    record_event
      (record {
        type = "stack.deleted";
        severity = none;
        resource = "stack:" <> attempt.stack.id;
        message =
            attempt.stack.name <> " was deleted by " <> g.actor_label <> ". Its volumes were kept.";
        correlation_id = g.operation_id;
      })
      (record_audit g attempt.stack "stack.deleted" "success" (some g.operation_id)
        (purge attempt.stack.id closed))

-- The error that tells of a removal that did nothing.
unfoldable pub not_applied_error : Option AppError → AppError
not_applied_error none = record {
  code = "STACK_DELETE_FAILED";
  message = "The stack was not removed from its host, so nothing was deleted.";
  status = 409;
}
not_applied_error (some e) =
    if e.code == "STACK_STATE_AMBIGUOUS"
    then conflict "STACK_REPAIR_AMBIGUOUS"
        "The containers of this stack on its host do not add up. Dockplane will not guess which ones it means; resolve it on the host and try again."
    else record { code = "STACK_DELETE_FAILED"; message = e.message; status = 409 }

unfoldable pub settle_deletion :
    Given
    → Attempt
    → StackDeleteOutcome
    → Option AppError
    → World
    → Result StackDeleteResult × World
settle_deletion g attempt (unknown reason) failure w =
    deletion_interrupted g attempt "HOST_NOT_READABLE" w
settle_deletion g attempt finalize_deleted failure w = (
  ok (record { stack_id = attempt.stack.id; retained_volumes = attempt.retained_volumes }),
  finish_deleted g attempt w,
)
settle_deletion g attempt (needs_attention reason) failure w = (
  err (record {
    code = "STACK_DELETE_PARTIAL";
    message =
        "Part of this stack was removed and part of it was not. Nothing was rebuilt and nothing was deleted from Dockplane; apply a revision to it before deleting it again.";
    status = 409;
  }),
  record_needs_attention g attempt reason w,
)
settle_deletion g attempt finalize_not_applied failure w =
    (err (not_applied_error failure), record_not_applied g attempt failure w)

-- `resync`: the containers after the host was read, and whether all of it was read.
unfoldable pub resync : Given → String → World → Bool × World
resync g host_id w = elim (agent_of w host_id) [
  | none ↦ (false, w)
  | some agent ↦ (
    or_else (g.sync w.requests w.containers).1 false,
    record w { containers = (g.sync w.requests w.containers).0 },
  )
]

-- `UNKNOWN_OUTCOME`
abbrev pub unknown_outcome : List String
unknown_outcome = "AGENT_REQUEST_TIMEOUT" ∷ "AGENT_NOT_CONNECTED" ∷ []

unfoldable pub reconcile_deletion :
    Given → Attempt → Option AppError → World → Result StackDeleteResult × World
reconcile_deletion g attempt failure w =
    let (snapshot_complete, read) = resync g attempt.stack.host_id w in
    settle_deletion g attempt
      (classify_stack_delete (record {
        expected_services = attempt.expected_services;
        observed = observed_claims read attempt.stack.id;
        snapshot_complete = snapshot_complete;
      }))
      failure read

unfoldable pub after_reply : Given → Attempt → Reply → World → Result StackDeleteResult × World
after_reply g attempt answered w = reconcile_deletion g attempt none w
after_reply g attempt broken w = reconcile_deletion g attempt none w
after_reply g attempt (refused e) w =
    if has unknown_outcome e.code
    then deletion_interrupted g attempt e.code w
    else reconcile_deletion g attempt (some e) w

unfoldable pub remove_then_finalize : Given → Attempt → World → Result StackDeleteResult × World
remove_then_finalize g attempt w = after_reply g attempt g.reply (record w {
  requests =
      w.requests
      ++ record { agent_id = attempt.agent_id; capability = "stack.remove"; plan = attempt.plan }
        ∷ [];
})

unfoldable pub attempt_of :
    StackRow → String → List String → String → List DeployedService → Attempt
attempt_of stack revision_id retained_volumes agent_id services = record {
  stack = stack;
  expected_services = map (λ s. s.service_name) services;
  retained_volumes = retained_volumes;
  agent_id = agent_id;
  plan = record { stack_id = stack.id; revision_id = revision_id; services = services };
}

-- What is written before the request: the action, the operation and the audit entry.
unfoldable pub delete_dispatched :
    Given
    → StackRow
    → String
    → List String
    → String
    → List DeployedService
    → World
    → Result StackDeleteResult × World
delete_dispatched g stack revision_id retained_volumes agent_id services w =
    elim (prepare g stack revision_id w) [
      | err e ↦ (err e, w)
      | ok prepared ↦
          remove_then_finalize g (attempt_of stack revision_id retained_volumes agent_id services)
            (record_audit g stack "stack.delete.requested" "success" (some g.operation_id) prepared)
    ]

-- The deletion of a stack whose revision is deployed.
unfoldable pub delete_current : Given → StackRow → String → World → Result StackDeleteResult × World
delete_current g stack revision_id w = elim (connected_agent w stack.host_id) [
  | err e ↦ (err e, w)
  | ok agent_id ↦ elim (deployed_services w stack.id revision_id) [
    | err e ↦ (err e, w)
    | ok services ↦ delete_dispatched g stack revision_id (volumes_of w stack) agent_id services w
  ]
]

-- The body of `delete`, while the lock is held.
unfoldable pub delete_locked : Given → StackRow → World → Result StackDeleteResult × World
delete_locked g stack w = elim stack.current_revision_id [
  | none ↦ delete_never_deployed g stack (volumes_of w stack) w
  | some revision_id ↦
      if revision_id == ""
      then delete_never_deployed g stack (volumes_of w stack) w
      else delete_current g stack revision_id w
]

-- From the lock on: it is released whatever the deletion comes to.
unfoldable pub delete_holding :
    Given → StackRow → World → Result ℕ × MutationRegistry → Result StackDeleteResult × World
delete_holding g stack w (err e, registry) = (err e, record w { registry = registry })
delete_holding g stack w (ok ticket, registry) =
    let (result, after) = delete_locked g stack (record w { registry = registry }) in
    (result, record after { registry = release ticket after.registry })

unfoldable pub delete : Given → String → World → Result StackDeleteResult × World
delete g stack_id w = elim (deletable w stack_id) [
  | err e ↦ (err e, w)
  | ok stack ↦ delete_holding g stack w (acquire ("stack:" <> stack_id) "delete" w.registry)
]
