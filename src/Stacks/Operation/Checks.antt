-- ===== src/Stacks/Operation/Checks.antt =====
-- What api/src/stacks/stack-lifecycle.service.ts asks and reads: the guards, the deployed services,
-- and what they look like before and after.
use dockplane.Base.{
  String, Bool, not, ◌&&◌, Option, none, some, List, [], ◌∷◌, map, ◌==◌, nat_eq, string_eq,
  option_eq, is_blank, or_else, length, if◌then◌else◌, find, has, get, Result, ok, err, ◌>>=◌, ◌>>◌,
  throw_if, not_found, conflict, ◌<>◌,
}
use dockplane.Stacks.Lifecycle.{
  StackLifecycleKind, start, stop, restart, ObservedRuntime, RuntimeFingerprint,
}
use dockplane.Stacks.World.{StackRow, HostRow, ContainerRow, Summary, World}
use dockplane.Stacks.Removal.Checks.{
  assert_not_archived, has_unresolved_deployment, has_unresolved_operation, revision_of, agent_of,
  containers_of, held_by,
}
use dockplane.Stacks.Operation.{ContainerDetail, StackService}
use dockplane.Version.Attribution.{assert_stack_attribution}

unfoldable pub assert_nothing_unresolved : World → String → Result (Unit {0})
assert_nothing_unresolved w stack_id =
    throw_if (has_unresolved_deployment w stack_id) (
      conflict "STACK_DEPLOYMENT_CONFLICT"
        "An attempt to apply a revision to this stack has not been resolved yet.")
    >> throw_if (has_unresolved_operation w stack_id) (
        conflict "STACK_OPERATION_CONFLICT" "An operation on this stack has not been resolved yet.")

unfoldable pub assert_stack_operable : World → StackRow → HostRow → Result (Unit {0})
assert_stack_operable w stack host =
    assert_not_archived host "its stacks cannot be started, stopped or restarted"
    >> throw_if (is_blank stack.current_revision_id) (
        conflict "STACK_NOT_DEPLOYED"
          "This stack has never been deployed, so there is nothing to start or stop. Deploy a revision to it first.")
    >> throw_if (stack.status == "needs_attention") (
        conflict "STACK_NEEDS_ATTENTION"
          "This stack is neither one revision nor another. Apply a revision to it before starting or stopping it.")
    >> assert_nothing_unresolved w stack.id

unfoldable pub operable : World → String → Result StackRow
operable w stack_id = elim (find (λ s. s.id == stack_id) w.stacks) [
  | none ↦ err (not_found "STACK_NOT_FOUND" "The stack does not exist.")
  | some stack ↦ elim (find (λ h. h.id == stack.host_id) w.hosts) [
    | none ↦ err (not_found "HOST_NOT_FOUND" "The host does not exist.")
    | some host ↦ assert_stack_operable w stack host >> ok stack
  ]
]

unfoldable pub reachable_agent : World → String → Result String
reachable_agent w host_id = elim (agent_of w host_id) [
  | none ↦ err (conflict "AGENT_REVOKED" "This host has no agent that may be reached.")
  | some agent ↦
      assert_stack_attribution agent.version "the stack cannot be changed"
      >> throw_if (not (has w.connected agent.id)) (
          conflict "AGENT_OFFLINE"
            "The agent is not connected, so the stack cannot be changed now.")
      >> ok agent.id
]

unfoldable pub stack_service : World → String → Summary → String → Result StackService
stack_service w stack_id summary service =
    let missing = conflict "STACK_SERVICE_MISSING" (
      service
      <> " has no container on this host. Deploy a revision to this stack rather than starting what is not there.") in
    elim (held_by (containers_of w stack_id) service) [
      | none ↦ err missing
      | some row ↦
          if is_blank row.docker_id
          then err missing
          else ok (record {
            service_name = service;
            container_id = row.id;
            docker_id = or_else row.docker_id "";
            depends_on = or_else (get summary.depends_on service) [];
          })
    ]

-- `expected.map(…)`: the first service without a container throws.
unfoldable pub each_stack_service :
    World → String → Summary → List String → Result (List StackService)
each_stack_service w stack_id summary [] = ok []
each_stack_service w stack_id summary (service ∷ services) =
    stack_service w stack_id summary service >>= λ s.
    each_stack_service w stack_id summary services >>= λ rest. ok (s ∷ rest)

abbrev pub nothing_deployed : Result (List StackService)
nothing_deployed =
    err (conflict "STACK_NOT_DEPLOYED" "The deployed revision of this stack describes no services.")

unfoldable pub stack_services : World → String → String → Result (List StackService)
stack_services w stack_id revision_id = elim (revision_of w revision_id) [
  | none ↦ nothing_deployed
  | some summary ↦
      if length summary.services == 0
      then nothing_deployed
      else each_stack_service w stack_id summary summary.services
]

abbrev pub docker_of : Option ContainerDetail → Option String
docker_of none = none
docker_of (some d) = d.docker_id

abbrev pub started_of : Option ContainerDetail → Option String
started_of none = none
started_of (some d) = d.started_at

-- `fingerprintOf`: a detail that cannot be read throws.
unfoldable pub fingerprint_of :
    (String → Result (Option ContainerDetail))
    → List StackService
    → Result (List RuntimeFingerprint)
fingerprint_of detail [] = ok []
fingerprint_of detail (service ∷ services) = detail service.container_id >>= λ observed.
    fingerprint_of detail services >>= λ rest. ok (
      record {
        service_name = service.service_name;
        container_id = service.container_id;
        docker_id = or_else (docker_of observed) service.docker_id;
        started_at = started_of observed;
      }
      ∷ rest)

-- A fingerprint is taken for a restart only.
unfoldable pub fingerprint_for :
    StackLifecycleKind
    → (String → Result (Option ContainerDetail))
    → List StackService
    → Result (Option (List RuntimeFingerprint))
fingerprint_for start detail services = ok none
fingerprint_for stop detail services = ok none
fingerprint_for restart detail services = fingerprint_of detail services >>= λ f. ok (some f)

-- A start time that cannot be read is absent.
unfoldable pub started_at_of :
    (String → Result (Option ContainerDetail)) → Bool → ContainerRow → Option String
started_at_of detail with_start_times row =
    if with_start_times && not (is_blank row.docker_id)
    then elim (detail row.id) [ err e ↦ none | ok observed ↦ started_of observed ]
    else none

unfoldable pub observed_runtime :
    World → (String → Result (Option ContainerDetail)) → Bool → String → List ObservedRuntime
unfolding started_at_of
observed_runtime w detail with_start_times stack_id =
    map
      (λ row. record {
        service_name = or_else row.stack_service "";
        container_id = row.id;
        docker_id = row.docker_id;
        state = if is_blank row.docker_id then none else row.state;
        revision_id = row.stack_revision_id;
        started_at = started_at_of detail with_start_times row;
      })
      (containers_of w stack_id)
