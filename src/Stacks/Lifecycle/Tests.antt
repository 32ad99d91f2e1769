-- ===== src/Stacks/Lifecycle/Tests.antt =====
-- Runs of api/src/stacks/stack-lifecycle.ts, and the theorems about it at these runs.
use dockplane.Base.{
  String, ◌≡◌, refl, ◌↔◌, ◌⊎◌, Bool, true, false, ◌==◌, string_eq, Option, none, some, List, [],
  ◌∷◌, if◌then◌else◌, ◌<>◌, nat_eq, option_eq, is_none, is_some, length, filter, get_last,
}
use dockplane.Stacks.Lifecycle.{
  stop, restart, applied, not_applied, needs_attention, ObservedRuntime, RuntimeFingerprint,
  StackLifecycleInput, service_problem, first_problem, extra, services_of, service_restarted, tally,
  outcome_of, restart_outcome, moved_outcome, classify_stack_lifecycle,
}
use dockplane.Stacks.Lifecycle.Services.{IsSettled}
use dockplane.Stacks.Lifecycle.Outcomes.{
  Reached, Untouched, classify-applied_iff, classify-not_applied_iff,
}

-- Dates that are the same text are the same time; any other pair counts as later.
abbrev later : String → String → Bool
later now earlier = if now == earlier then false else true

abbrev runtime : String → String → ObservedRuntime
runtime name started = record {
  service_name = name;
  container_id = name;
  docker_id = some "d1";
  state = some "running";
  revision_id = some "r2";
  started_at = some started;
}

abbrev before : String → String → RuntimeFingerprint
before name started = record {
  service_name = name;
  container_id = name;
  docker_id = "d1";
  started_at = some started;
}

abbrev restarting : String → StackLifecycleInput
restarting started = record {
  operation = restart;
  revision_id = "r2";
  expected_services = "web" ∷ "db" ∷ [];
  observed = runtime "db" started ∷ runtime "web" started ∷ [];
  fingerprint = some (before "web" "t1" ∷ before "db" "t1" ∷ []);
  snapshot_complete = true;
}

classify : Unit {0}
unfolding classify_stack_lifecycle first_problem service_problem extra services_of moved_outcome
    restart_outcome outcome_of tally service_restarted get_last dockplane.Base.has
classify = tt

classify_runs :
    (classify_stack_lifecycle later (restarting "t2") ≡ applied)
    × (classify_stack_lifecycle later (restarting "t1") ≡ not_applied)
    × (classify_stack_lifecycle later (record (restarting "t1") { operation = stop }) ≡ not_applied)
    × (classify_stack_lifecycle later (record (restarting "t1") { expected_services = "web" ∷ [] })
        ≡ needs_attention "the host holds db, which this stack's revision does not describe")
unfolding classify
classify_runs = (refl, refl, refl, refl)

classify-applied_iff_example :
    (classify_stack_lifecycle later (restarting "t2") ≡ applied)
    ↔ ((true ≡ true) × IsSettled (restarting "t2") × Reached later (restarting "t2") restart)
classify-applied_iff_example = classify-applied_iff later (restarting "t2")

classify-not_applied_iff_example :
    (classify_stack_lifecycle later (restarting "t1") ≡ not_applied)
    ↔ ((true ≡ true) × IsSettled (restarting "t1") × Untouched later (restarting "t1") restart)
classify-not_applied_iff_example = classify-not_applied_iff later (restarting "t1")
