-- ===== src/Stacks/Apply/Tests.antt =====
-- Runs of api/src/stacks/stack-deployment.ts, and the theorems about it at these runs.
use dockplane.Base.{
  String, ◌≡◌, refl, ◌≢◌, ◌↔◌, Bool, true, false, Option, none, some, List, [], ◌∷◌, length, NoDup,
  arith, ==_iff, string_eq,
}
use dockplane.Stacks.Apply.{
  finalize_target, finalize_from, finalize_not_applied, needs_attention, ObservedService,
  StackApplyInput, live_services, duplicate, matches, matches_from, classify_stack_apply,
}

abbrev service : String → String → String → ObservedService
service name state revision = record {
  service_name = name;
  container_id = name;
  docker_id = some "d1";
  state = some state;
  revision_id = some revision;
}

abbrev moving : List ObservedService → StackApplyInput
moving observed = record {
  from_revision_id = some "r1";
  target_revision_id = "r2";
  target_services = "web" ∷ "db" ∷ [];
  from_services = some ("web" ∷ []);
  observed = observed;
  snapshot_complete = true;
}

abbrev arrived : StackApplyInput
arrived = moving (service "db" "running" "r2" ∷ service "web" "running" "r2" ∷ [])

abbrev stayed : StackApplyInput
stayed = moving (service "web" "exited" "r1" ∷ [])

abbrev untouched : StackApplyInput
untouched = record (moving []) { from_revision_id = none; from_services = none }

apply_runs :
    (classify_stack_apply arrived ≡ finalize_target)
    × (classify_stack_apply stayed ≡ finalize_from)
    × (classify_stack_apply untouched ≡ finalize_not_applied)
    × (classify_stack_apply (moving (service "web" "running" "r2" ∷ []))
        ≡ needs_attention "1 containers are running and they are not one revision")
unfolding classify_stack_apply live_services duplicate matches matches_from dockplane.Base.has
    dockplane.Base.decimal
apply_runs = (refl, refl, refl, refl)

distinct_services : NoDup {A = String} ("web" ∷ "db" ∷ [])
distinct_services = ground (arith, ==_iff {A = String} "web" "db")
