-- ===== src/Stacks/Removal/Tests.antt =====
-- Runs of a deletion, and the witnesses.
use dockplane.Base.{
  ◌≡◌, refl, Bool, true, Option, none, some, List, [], ◌∷◌, map, ok, err, AppError, arith,
  string_eq, get, put, drop_key, get_last, has, set_of, length,
}
use dockplane.Operations.Registry.{acquire, release, open_ticket, mark_released}
use dockplane.Version.Codes.{codes, trim}
use dockplane.Version.Numbers.{number}
use dockplane.Version.Semver.{
  parse_version, match_version, without_v, read_number, read_part, read_suffix, compare_versions,
  compare_parsed,
}
use dockplane.Version.Attribution.{assert_stack_attribution, supports_stack_attribution}
use dockplane.Stacks.Delete.{classify_stack_delete, present_claims}
use dockplane.Stacks.World.{AgentRequest, World, ContainerRow, StackRow, answered}
use dockplane.Stacks.Removal.{Given, StackDeleteResult}
use dockplane.Stacks.Removal.Checks.{
  deletable, assert_deletable, assert_not_archived, has_unresolved_deployment,
  has_unresolved_operation, volumes_of, revision_of, connected_agent, agent_of, deployed_services,
  each_service, deployed_service, held_by, containers_of, observed_claims, is_archived,
}
use dockplane.Stacks.Removal.Running.{
  delete, delete_holding, delete_locked, delete_current, delete_dispatched, prepare,
  deletion_started, attempt_of, remove_then_finalize, after_reply, reconcile_deletion, resync,
  settle_deletion, finish_deleted, deletion_interrupted, record_audit, record_event,
  update_operation, update_action, purge,
}
use dockplane.Stacks.Removal.Locks.{delete_unlocks}
use dockplane.Stacks.Removal.Kept.{delete_err-Keeps, Keeps}
use dockplane.Stacks.Removal.Settled.{delete-Settled, Settled}
use dockplane.Stacks.Removal.Requests.{delete-Asks, Asks}

abbrev shop : StackRow
shop = record {
  id = "s1";
  host_id = "h1";
  name = "shop";
  status = "running";
  latest_revision_id = some "r1";
  current_revision_id = some "r1";
}

abbrev world : World
world = record {
  stacks = shop ∷ [];
  hosts = record { id = "h1"; archived_at = none } ∷ [];
  agents =
      record { id = "a1"; host_id = "h1"; version = some (codes "0.3.0"); revoked_at = none } ∷ [];
  connected = "a1" ∷ [];
  revisions =
      record {
        id = "r1";
        stack_id = "s1";
        summary =
            some (record { services = "web" ∷ []; volumes = "shop_data" ∷ []; depends_on = [] });
      }
      ∷ [];
  containers =
      record {
        id = "c1";
        stack_id = some "s1";
        stack_service = some "web";
        docker_id = some "d1";
        state = some "running";
        stack_revision_id = some "r1";
      }
      ∷ [];
  deployments = [];
  operations = [];
  actions = [];
  registry = record { held = []; tickets = [] };
  audit = [];
  events = [];
  requests = [];
}

abbrev gone : List AgentRequest → List ContainerRow → List ContainerRow × Option Bool
gone [] rows = (rows, some true)
gone (r ∷ requests) rows =
    (map (λ (c : ContainerRow). record c { docker_id = none }) rows, some true)

abbrev unread : List AgentRequest → List ContainerRow → List ContainerRow × Option Bool
unread requests rows = (rows, none)

abbrev removed : Given
removed = record {
  actor_label = "ops@example.com";
  now = 7;
  action_id = "x1";
  operation_id = "o1";
  reply = answered;
  sync = gone;
}

abbrev lost : Given
lost = record removed { sync = unread }

abbrev done : StackDeleteResult
done = record { stack_id = "s1"; retained_volumes = "shop_data" ∷ [] }

abbrev outcome_unknown : AppError
outcome_unknown = record {
  code = "OPERATION_OUTCOME_UNKNOWN";
  message =
      "The request reached the host but its result did not come back. Dockplane will establish what happened from the host and will not repeat the operation; nothing has been deleted.";
  status = 503;
}

runs :
    ((delete removed "s1" world).0 ≡ ok done)
    × (length (delete removed "s1" world).1.stacks ≡ 0)
    × (length (delete removed "s1" world).1.requests ≡ 1)
    × (map (λ o. o.status) (delete lost "s1" world).1.operations ≡ "interrupted" ∷ [])
    × (deletable world "s1" ≡ ok shop)
    × ((delete lost "s1" world).0 ≡ err outcome_unknown)
unfolding delete delete_holding delete_locked delete_current delete_dispatched prepare
    deletion_started attempt_of remove_then_finalize after_reply reconcile_deletion resync
    settle_deletion finish_deleted record_audit record_event update_operation update_action purge
    deletable assert_deletable assert_not_archived is_archived has_unresolved_deployment
    has_unresolved_operation volumes_of revision_of connected_agent agent_of deployed_services
    each_service deployed_service held_by get_last containers_of observed_claims
    assert_stack_attribution supports_stack_attribution compare_versions parse_version match_version
    trim without_v read_number read_part read_suffix number compare_parsed classify_stack_delete
    present_claims acquire release open_ticket mark_released get put drop_key has set_of
    deletion_interrupted
runs = (refl, refl, refl, refl, refl, refl)

delete_unlocks_example :
    get (delete removed "s1" world).1.registry.held "stack:s1" ≡ get world.registry.held "stack:s1"
delete_unlocks_example = delete_unlocks removed "s1" world "stack:s1" (unfold get in ground arith)

delete_err-Keeps_example : Keeps lost world (delete lost "s1" world).1
delete_err-Keeps_example = delete_err-Keeps lost "s1" world outcome_unknown runs.5

delete-Settled_example : Settled lost (delete lost "s1" world).1.operations
delete-Settled_example = delete-Settled lost "s1" world tt

delete-Asks_example : Asks shop world (delete removed "s1" world).1
delete-Asks_example = delete-Asks removed "s1" world shop runs.4
