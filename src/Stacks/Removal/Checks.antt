-- ===== src/Stacks/Removal/Checks.antt =====
-- What api/src/stacks/stack-delete.service.ts asks before it writes: the guards and the queries.
use dockplane.Base.{
  String, Bool, not, ◌&&◌, Option, none, some, List, [], ◌∷◌, map, ◌==◌, string_eq, option_eq,
  is_some, is_none, is_blank, or_else, if◌then◌else◌, any, filter, find, has, get, get_last, Result,
  ok, err, ◌>>=◌, ◌>>◌, throw_if, not_found, conflict, ◌<>◌,
}
use dockplane.Stacks.World.{
  StackRow, HostRow, AgentRow, ContainerRow, Summary, World, DeployedService,
}
use dockplane.Stacks.Delete.{ObservedClaim}
use dockplane.Version.Attribution.{assert_stack_attribution}

-- `inventory/host-archive.ts`
unfoldable pub is_archived : HostRow → Bool
is_archived host = is_some host.archived_at

unfoldable pub assert_not_archived : HostRow → String → Result (Unit {0})
unfolding is_archived
assert_not_archived host what = throw_if (is_archived host) (
    conflict "HOST_ARCHIVED"
      ("The host is archived, so " <> what <> ". Restore it first if it is in use again."))

-- `UNRESOLVED_DEPLOYMENT` and `UNRESOLVED_OPERATION`
abbrev pub unresolved : List String
unresolved = "pending" ∷ "running" ∷ "interrupted" ∷ []

unfoldable pub has_unresolved_deployment : World → String → Bool
has_unresolved_deployment w stack_id =
    any (λ d. d.stack_id == stack_id && has unresolved d.status) w.deployments

unfoldable pub has_unresolved_operation : World → String → Bool
has_unresolved_operation w stack_id =
    any (λ o. o.stack_id == stack_id && has unresolved o.status) w.operations

-- The guards on a stack and on its host.
unfoldable pub assert_deletable : World → StackRow → HostRow → Result (Unit {0})
assert_deletable w stack host =
    assert_not_archived host "its stacks cannot be removed"
    >> throw_if (stack.status == "needs_attention") (
        conflict "STACK_NEEDS_ATTENTION"
          "This stack is neither one revision nor another. Apply a revision to it before deleting it.")
    >> throw_if (has_unresolved_deployment w stack.id) (
        conflict "STACK_DEPLOYMENT_CONFLICT"
          "An attempt to apply a revision to this stack has not been resolved yet.")
    >> throw_if (has_unresolved_operation w stack.id) (
        conflict "STACK_OPERATION_CONFLICT" "An operation on this stack has not been resolved yet.")

unfoldable pub deletable : World → String → Result StackRow
deletable w stack_id = elim (find (λ s. s.id == stack_id) w.stacks) [
  | none ↦ err (not_found "STACK_NOT_FOUND" "The stack does not exist.")
  | some stack ↦ elim (find (λ h. h.id == stack.host_id) w.hosts) [
    | none ↦ err (not_found "HOST_NOT_FOUND" "The host does not exist.")
    | some host ↦ assert_deletable w stack host >> ok stack
  ]
]

unfoldable pub revision_of : World → String → Option Summary
revision_of w revision_id = elim (find (λ r. r.id == revision_id) w.revisions) [
  | none ↦ none
  | some revision ↦ revision.summary
]

-- `stack.currentRevisionId ?? stack.latestRevisionId`
abbrev pub described_revision : StackRow → Option String
described_revision stack = elim stack.current_revision_id [
  | none ↦ stack.latest_revision_id
  | some id ↦ some id
]

unfoldable pub volumes_of : World → StackRow → List String
unfolding revision_of
volumes_of w stack = elim (described_revision stack) [
  | none ↦ []
  | some revision_id ↦ elim (revision_of w revision_id) [ none ↦ [] | some s ↦ s.volumes ]
]

-- The agent of a host that was not revoked.
unfoldable pub agent_of : World → String → Option AgentRow
agent_of w host_id = find (λ a. a.host_id == host_id && is_none a.revoked_at) w.agents

unfoldable pub connected_agent : World → String → Result String
connected_agent w host_id = elim (agent_of w host_id) [
  | none ↦ err (conflict "AGENT_REVOKED" "This host has no agent that may be reached.")
  | some agent ↦
      assert_stack_attribution agent.version "this stack cannot be removed from its host"
      >> throw_if (not (has w.connected agent.id)) (
          conflict "AGENT_OFFLINE"
            "The agent is not connected, so this stack cannot be removed from its host now.")
      >> ok agent.id
]

unfoldable pub containers_of : World → String → List ContainerRow
containers_of w stack_id = filter (λ c. c.stack_id == some stack_id) w.containers

-- `held`: a container by the service that it names.
abbrev pub service_key : ContainerRow → String
service_key c = or_else c.stack_service ""

unfoldable pub held_by : List ContainerRow → String → Option ContainerRow
held_by rows service = get_last service_key service (filter (λ c. is_some c.stack_service) rows)

unfoldable pub deployed_service : World → String → Summary → String → Result DeployedService
deployed_service w stack_id summary service =
    let missing = conflict "STACK_SERVICE_MISSING" (
      service
      <> " has no container on this host, so Dockplane cannot say what removing this stack would remove. Apply a revision to it first.") in
    elim (held_by (containers_of w stack_id) service) [
      | none ↦ err missing
      | some row ↦
          if is_blank row.docker_id
          then err missing
          else ok (record {
            service_name = service;
            container_id = row.id;
            depends_on = or_else (get summary.depends_on service) [];
          })
    ]

-- `expected.map(…)`: the first service without a container throws.
unfoldable pub each_service : World → String → Summary → List String → Result (List DeployedService)
each_service w stack_id summary [] = ok []
each_service w stack_id summary (service ∷ services) =
    deployed_service w stack_id summary service >>= λ s.
    each_service w stack_id summary services >>= λ rest. ok (s ∷ rest)

unfoldable pub deployed_services : World → String → String → Result (List DeployedService)
deployed_services w stack_id revision_id = elim (revision_of w revision_id) [
  | none ↦ ok []
  | some summary ↦ each_service w stack_id summary summary.services
]

unfoldable pub observed_claims : World → String → List ObservedClaim
observed_claims w stack_id =
    map
      (λ c. record {
        service_name = or_else c.stack_service "";
        container_id = c.id;
        docker_id = c.docker_id;
      })
      (containers_of w stack_id)

-- The checks on a stack that was never deployed, before it is purged.
unfoldable pub assert_nothing_left : World → StackRow → Result (Unit {0})
assert_nothing_left w stack =
    throw_if (any (λ c. is_some c.docker_id) (containers_of w stack.id)) (
      conflict "STACK_STATE_AMBIGUOUS"
        "This stack is not recorded as deployed, but containers on its host claim to belong to it. Dockplane will not delete its configuration while they are there.")
    >> (if any (λ d. d.stack_id == stack.id) w.deployments
        then assert_stack_attribution
            (elim (agent_of w stack.host_id) [ none ↦ none | some agent ↦ agent.version ])
            "whether it left containers on the host cannot be established"
        else ok tt)
