-- ===== src/Stacks/Delete/Tests.antt =====
-- Runs of api/src/stacks/stack-delete.ts, and the theorems about it at these runs.
use dockplane.Base.{
  String, ◌≡◌, refl, ◌≢◌, ◌↔◌, Bool, true, false, Option, none, some, List, [], ◌∷◌, All, Any, In,
}
use dockplane.Stacks.Delete.{
  finalize_deleted, finalize_not_applied, needs_attention, ObservedClaim, StackDeleteInput,
  present_claims, classify_stack_delete,
}

abbrev held : String → Option String → ObservedClaim
held name docker = record { service_name = name; container_id = name; docker_id = docker }

abbrev deleting : List ObservedClaim → StackDeleteInput
deleting observed = record {
  expected_services = "web" ∷ "db" ∷ [];
  observed = observed;
  snapshot_complete = true;
}

abbrev gone : StackDeleteInput
gone = deleting (held "web" none ∷ [])

abbrev whole : StackDeleteInput
whole = deleting (held "db" (some "d1") ∷ held "web" (some "d2") ∷ [])

delete_runs :
    (classify_stack_delete gone ≡ finalize_deleted)
    × (classify_stack_delete whole ≡ finalize_not_applied)
    × (classify_stack_delete (deleting (held "db" (some "d1") ∷ []))
        ≡ needs_attention "part of the stack was removed and part of it was not")
unfolding classify_stack_delete present_claims dockplane.Base.has dockplane.Base.set_of
delete_runs = (refl, refl, refl)
