-- ===== src/Containers/Guard.antt =====
-- api/src/containers/pending-guard.ts: what has to be settled before a container may be operated.
pub mod Conditions
pub mod AfterRecovery
mod Tests
use dockplane.Base.{
  String, Bool, true, false, not, ◌&&◌, ◌||◌, Option, none, some, List, ◌==◌, string_eq, option_eq,
  is_some, is_blank, if◌then◌else◌, find, any, AppError, conflict, Result, ok, err, ◌>>=◌, ◌>>◌,
  throw_if,
}
use dockplane.Containers.Store.{Database, AttemptRow, is_pending, is_unfinished}

-- `UNFINISHABLE`
abbrev pub is_unfinishable : String → Bool
is_unfinishable c = c == "container.create" || c == "container.replace" || c == "container.remove"

-- `inArray(status, ['pending', 'running', 'interrupted'])`
abbrev pub is_unresolved : String → Bool
is_unresolved s = s == "pending" || s == "running" || s == "interrupted"

pub assert_resolved : Database → String → Result (Unit {0})
assert_resolved db container = do
  throw_if (any (λ r. r.container_id == container && is_pending r.state) db.configs) (
      conflict "ACTION_CONFLICT"
        "A configuration change on this container has not been resolved yet.")
  throw_if
      (any
        (λ a.
          a.target_type == some "container"
          && a.target_id == some container
          && is_unfinished a.status
          && is_unfinishable a.capability)
        db.actions)
      (conflict "ACTION_CONFLICT"
        "A change to this container was started and has not been resolved yet.")

-- Whether an attempt on the stack is unresolved.
abbrev pub has_unresolved : String → List AttemptRow → Bool
has_unresolved stack = any (λ d. d.stack_id == stack && is_unresolved d.status)

-- The checks on the stack of the container.
pub assert_stack : Database → String → Result (Unit {0})
assert_stack db stack = do
  throw_if (has_unresolved stack db.deployments) (
      conflict "STACK_DEPLOYMENT_CONFLICT"
        "An attempt to apply a revision to this container’s stack has not been resolved yet.")
  throw_if (has_unresolved stack db.operations) (
      conflict "STACK_OPERATION_CONFLICT"
        "An operation on this container’s stack has not been resolved yet.")
  throw_if
      (elim (find (λ s. s.id == stack) db.stacks) [
        | none ↦ false
        | some s ↦ s.status == "needs_attention"
      ])
      (conflict "STACK_NEEDS_ATTENTION"
        "This container’s stack is neither one revision nor another. Apply a revision to it before operating its containers individually.")

pub assert_stack_settled : Database → String → Result (Unit {0})
assert_stack_settled db container = elim (find (λ c. c.id == container) db.containers) [
  | none ↦ ok tt
  | some row ↦ elim row.stack_id [
    | none ↦ ok tt
    | some stack ↦ if is_blank (some stack) then ok tt else assert_stack db stack
  ]
]

pub assert_operable : Database → String → Result (Unit {0})
assert_operable db container = do
  assert_resolved db container
  assert_stack_settled db container
  throw_if
      (elim (find (λ c. c.id == container) db.containers) [
        | none ↦ false
        | some row ↦ is_some row.identity_conflict
      ])
      (conflict "CONTAINER_IDENTITY_CONFLICT"
        "More than one container claims to be this one, so nothing may be done to it until that is resolved.")

-- `lower` is SQL's `lower`.
pub assert_name_free : (String → String) → Database → String → String → Result (Unit {0})
assert_name_free lower db host name =
    elim (find (λ c. c.host_id == host && lower c.name == lower name) db.containers) [
      | none ↦ ok tt
      | some taken ↦ err (
          conflict "CONTAINER_NAME_IN_USE" (
            if not (is_blank taken.docker_id)
            then "A container with this name already exists on this host."
            else "A container with this name is already being created on this host."))
    ]
