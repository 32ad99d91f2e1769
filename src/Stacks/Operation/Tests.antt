-- ===== src/Stacks/Operation/Tests.antt =====
-- Runs of an operation, and the witnesses.
use dockplane.Base.{
  String, ◌≡◌, ◌≢◌, refl, Bool, true, false, Option, none, some, List, [], ◌∷◌, map, ok, err,
  AppError, arith, string_eq, get, put, drop_key, get_last, has, length,
}
use dockplane.Operations.Registry.{acquire, release, open_ticket, mark_released}
use dockplane.Version.Codes.{codes, trim}
use dockplane.Version.Numbers.{number}
use dockplane.Version.Semver.{
  parse_version, match_version, without_v, read_number, read_part, read_suffix, compare_versions,
  compare_parsed,
}
use dockplane.Version.Attribution.{assert_stack_attribution, supports_stack_attribution}
use dockplane.Stacks.Lifecycle.{
  start, stop, classify_stack_lifecycle, first_problem, service_problem, extra, services_of,
  moved_outcome,
}
use dockplane.Stacks.World.{AgentRequest, World, ContainerRow, StackRow, answered, refused}
use dockplane.Stacks.Removal.Checks.{
  assert_not_archived, has_unresolved_deployment, has_unresolved_operation, revision_of, agent_of,
  held_by, containers_of, is_archived,
}
use dockplane.Stacks.Removal.Running.{
  resync, record_audit, record_event, update_operation, update_action, delete,
}
use dockplane.Stacks.Removal.Settled.{Settled}
use dockplane.Stacks.Operation.{OperationGiven, StackOperationOutcome}
use dockplane.Stacks.Operation.Checks.{
  assert_nothing_unresolved, assert_stack_operable, operable, reachable_agent, stack_service,
  each_stack_service, stack_services, fingerprint_of, fingerprint_for, started_at_of,
  observed_runtime,
}
use dockplane.Stacks.Operation.Running.{
  set_stack_status, operation_started, operation_interrupted, detail_of, record_applied,
  operation_not_applied, settle_reading, settle_observed, after_operation_reply,
  dispatch_and_settle, dispatched_operation, run_prepared, run_locked, run_holding, run,
}
use dockplane.Stacks.Operation.Locks.{run_unlocks}
use dockplane.Stacks.Operation.Settled.{run-Settled}
use dockplane.Stacks.Operation.Blocked.{lost_reply_blocks}

abbrev shop : StackRow
shop = record {
  id = "s1";
  host_id = "h1";
  name = "shop";
  status = "running";
  latest_revision_id = some "r1";
  current_revision_id = some "r1";
}

abbrev world : World
world = record {
  stacks = shop ∷ [];
  hosts = record { id = "h1"; archived_at = none } ∷ [];
  agents =
      record { id = "a1"; host_id = "h1"; version = some (codes "0.3.0"); revoked_at = none } ∷ [];
  connected = "a1" ∷ [];
  revisions =
      record {
        id = "r1";
        stack_id = "s1";
        summary =
            some (record { services = "web" ∷ []; volumes = "shop_data" ∷ []; depends_on = [] });
      }
      ∷ [];
  containers =
      record {
        id = "c1";
        stack_id = some "s1";
        stack_service = some "web";
        docker_id = some "d1";
        state = some "running";
        stack_revision_id = some "r1";
      }
      ∷ [];
  deployments = [];
  operations = [];
  actions = [];
  registry = record { held = []; tickets = [] };
  audit = [];
  events = [];
  requests = [];
}

abbrev later : String → String → Bool
later a b = false

abbrev same : List AgentRequest → List ContainerRow → List ContainerRow × Option Bool
same requests rows = (rows, some true)

abbrev given : OperationGiven
given = record {
  given = record {
    actor_label = "ops@example.com";
    now = 7;
    action_id = "x1";
    operation_id = "o1";
    reply = answered;
    sync = same;
  };
  detail_before = λ id. ok none;
  detail_after = λ id. ok none;
}

abbrev timeout : AppError
timeout = record { code = "AGENT_REQUEST_TIMEOUT"; message = "No answer."; status = 504 }

abbrev unanswered : OperationGiven
unanswered = record {
  given = record {
    actor_label = "ops@example.com";
    now = 7;
    action_id = "x1";
    operation_id = "o1";
    reply = refused timeout;
    sync = same;
  };
  detail_before = λ id. ok none;
  detail_after = λ id. ok none;
}

abbrev done : StackOperationOutcome
done = record {
  operation_id = "o1";
  stack_id = "s1";
  operation = start;
  services = record { service_name = "web"; state = some "running" } ∷ [];
}

runs :
    ((run later given start "s1" world).0 ≡ ok done)
    × (map (λ o. o.status) (run later given start "s1" world).1.operations ≡ "succeeded" ∷ [])
    × (map (λ o. o.status) (run later given stop "s1" world).1.operations ≡ "failed" ∷ [])
    × (operable world "s1" ≡ ok shop)
    × (length (run later unanswered start "s1" world).1.requests ≡ 1)
    × (has ("AGENT_REQUEST_TIMEOUT" ∷ "AGENT_NOT_CONNECTED" ∷ []) timeout.code ≡ true)
unfolding run run_holding run_locked run_prepared dispatched_operation dispatch_and_settle
    after_operation_reply settle_observed settle_reading record_applied detail_of
    operation_interrupted operation_started set_stack_status observed_runtime started_at_of
    fingerprint_for fingerprint_of stack_services each_stack_service stack_service reachable_agent
    operable assert_stack_operable assert_nothing_unresolved resync record_audit record_event
    update_operation update_action assert_not_archived is_archived has_unresolved_deployment
    has_unresolved_operation revision_of agent_of held_by containers_of classify_stack_lifecycle
    first_problem service_problem extra services_of moved_outcome assert_stack_attribution
    supports_stack_attribution compare_versions parse_version match_version trim without_v
    read_number read_part read_suffix number compare_parsed acquire release open_ticket
    mark_released get put drop_key has get_last operation_not_applied
runs = (refl, refl, refl, refl, refl, refl)

run_unlocks_example :
    get (run later given start "s1" world).1.registry.held "stack:s1"
    ≡ get world.registry.held "stack:s1"
run_unlocks_example =
    run_unlocks later given start "s1" world "stack:s1" (unfold get in ground arith)

run-Settled_example : Settled given.given (run later given start "s1" world).1.operations
run-Settled_example = run-Settled later given start "s1" world tt

asked_once : (run later unanswered start "s1" world).1.requests ≢ []
asked_once none_sent = ground (arith, runs.4, none_sent)

lost_reply_blocks_example :
    ((e : AppError) × (run later given stop "s1" (run later unanswered start "s1" world).1
        ≡ (err e, (run later unanswered start "s1" world).1)))
    × ((e : AppError) × (delete given.given "s1" (run later unanswered start "s1" world).1
          ≡ (err e, (run later unanswered start "s1" world).1)))
lost_reply_blocks_example =
    lost_reply_blocks later unanswered timeout start "s1" world given stop refl runs.5 asked_once
