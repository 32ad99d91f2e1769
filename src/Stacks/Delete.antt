-- ===== src/Stacks/Delete.antt =====
-- api/src/stacks/stack-delete.ts: what deleting a stack has done to its host.
pub mod Outcomes
mod Tests
use dockplane.Base.{
  String, Bool, not, Option, none, some, List, ◌==◌, nat_eq, string_eq, is_some, if◌then◌else◌,
  length, map, filter, find, has, set_of, ◌<>◌,
}

pub data StackDeleteOutcome : Type 0 where
  finalize_deleted finalize_not_applied : StackDeleteOutcome
  needs_attention unknown : (reason : String) → StackDeleteOutcome

pub record ObservedClaim : Type 0 where
  pub service_name : String
  pub container_id : String
  pub docker_id : Option String

pub record StackDeleteInput : Type 0 where
  pub expected_services : List String
  pub observed : List ObservedClaim
  pub snapshot_complete : Bool

unfoldable pub present_claims : List ObservedClaim → List ObservedClaim
present_claims observed = filter (λ c. is_some c.docker_id) observed

unfoldable pub classify_stack_delete : StackDeleteInput → StackDeleteOutcome
classify_stack_delete i =
    if not i.snapshot_complete
    then unknown "the host was not read completely"
    else if length present == 0
    then finalize_deleted
    else elim (find (λ c. not (has i.expected_services c.service_name)) present) [
      | some c ↦ needs_attention (
          "the host still holds " <> c.service_name
          <> ", which the deleted revision does not describe")
      | none ↦
          if length (set_of (map (λ c. c.service_name) present))
            == length (set_of i.expected_services)
          then finalize_not_applied
          else needs_attention "part of the stack was removed and part of it was not"
    ]
  where
    present : List ObservedClaim
    present = present_claims i.observed
