-- ===== src/Stacks/Lifecycle/Outcomes.antt =====
-- What each outcome of api/src/stacks/stack-lifecycle.ts says of the host.
use dockplane.Base.{
  ◌<◌, String, ◌≡◌, refl, ◌≢◌, ◌↔◌, ◌⊎◌, Bool, true, false, some, List, arith, ==_iff, string_eq,
  option_eq, Option-cases, inl, inr, length, All, All-map_iff, length-filter-eq-length_iff,
  length-filter-none_iff,
}
use dockplane.Stacks.Lifecycle.{
  StackLifecycleKind, start, stop, restart, StackLifecycleInput, StackLifecycleOutcome, applied,
  not_applied, unknown, ObservedRuntime, RuntimeFingerprint, is_running, first_problem, services_of,
  moved_outcome, classify_stack_lifecycle,
}
use dockplane.Stacks.Lifecycle.Services.{
  Shows, IsPresent, IsSettled, first_problem-none_iff, first_problem-needs_attention,
  extra-none_iff, length-services_of, All-services_of_iff,
}
use dockplane.Stacks.Lifecycle.Restart.{
  Compares, restart_outcome-applied_iff, restart_outcome-not_applied_iff,
}

module _ (started_after : String → String → Bool) (i : StackLifecycleInput) where
  -- A conclusion is drawn only from a complete reading of a settled stack, by its services.
  concluded_iff :
      (o : StackLifecycleOutcome)
      → ((o ≡ applied) ⊎ (o ≡ not_applied))
      → (classify_stack_lifecycle started_after i ≡ o) ↔ (
          (i.snapshot_complete ≡ true)
          × IsSettled i
          × (moved_outcome started_after i (services_of i i.expected_services) i.operation ≡ o))
  unfolding classify_stack_lifecycle
  concluded_iff o h = elim (Option-cases (first_problem i i.expected_services)) [
    | inl clear ↦ ground (arith, first_problem-none_iff i i.expected_services, extra-none_iff i)
    | inr (p, problem) ↦ ground (
      arith,
      first_problem-none_iff i i.expected_services,
      first_problem-needs_attention i i.expected_services p,
    )
  ]

abbrev IsUp : ObservedRuntime → Type 0
IsUp s = s.state ≡ some "running"

abbrev IsDown : ObservedRuntime → Type 0
IsDown s = s.state ≢ some "running"

module _ (started_after : String → String → Bool) (i : StackLifecycleInput) where
  -- Every service is in the state that was asked for; a restart is seen against the record.
  abbrev pub Reached : StackLifecycleKind → Type 0
  Reached start = All (Shows i IsUp) i.expected_services
  Reached stop = All (Shows i IsDown) i.expected_services
  Reached restart =
      (before : List RuntimeFingerprint) × (i.fingerprint ≡ some before)
      × All (Shows i (Compares started_after before true)) i.expected_services

  -- There is a service, and every service is in the state that the operation was to end.
  abbrev pub Untouched : StackLifecycleKind → Type 0
  Untouched start = (0 < length i.expected_services) × All (Shows i IsDown) i.expected_services
  Untouched stop = (0 < length i.expected_services) × All (Shows i IsUp) i.expected_services
  Untouched restart =
      (before : List RuntimeFingerprint) × (i.fingerprint ≡ some before)
      × (0 < length i.expected_services)
      × All (Shows i (Compares started_after before false)) i.expected_services

  module _ (there : All (Shows i (IsPresent i.revision_id)) i.expected_services) where
    abbrev services : List ObservedRuntime
    services = services_of i i.expected_services

    counted_services : length services ≡ length i.expected_services
    counted_services = length-services_of i (IsPresent i.revision_id) i.expected_services there

    All-services_iff :
        (Q : ObservedRuntime → Type 0) → All Q services ↔ All (Shows i Q) i.expected_services
    All-services_iff Q = All-services_of_iff i (IsPresent i.revision_id) Q i.expected_services there

    running_iff : All (λ s. is_running s.state ≡ true) services ↔ All IsUp services
    running_iff = All-map_iff (λ s. ==_iff s.state (some "running")) services

    not_running_iff : All (λ s. is_running s.state ≡ false) services ↔ All IsDown services
    not_running_iff = All-map_iff (λ s. ground (arith, ==_iff s.state (some "running"))) services

    moved-applied_iff :
        (k : StackLifecycleKind) → (moved_outcome started_after i services k ≡ applied) ↔ Reached k
    unfolding moved_outcome
    moved-applied_iff start = ground (
      arith,
      length-filter-eq-length_iff (λ s. is_running s.state) services,
      running_iff,
      All-services_iff IsUp,
    )
    moved-applied_iff stop = ground (
      arith,
      length-filter-none_iff (λ s. is_running s.state) services,
      not_running_iff,
      All-services_iff IsDown,
    )
    moved-applied_iff restart =
        let (to, from) = restart_outcome-applied_iff started_after services i.fingerprint in
        (
          λ e. let (b, same, h) = to e in (b, same, (All-services_iff _).0 h),
          λ r. let (b, same, h) = r in from (b, same, (All-services_iff _).1 h),
        )

    moved-not_applied_iff :
        (k : StackLifecycleKind)
        → (moved_outcome started_after i services k ≡ not_applied) ↔ Untouched k
    unfolding moved_outcome
    moved-not_applied_iff start = ground (
      arith,
      length-filter-eq-length_iff (λ s. is_running s.state) services,
      length-filter-none_iff (λ s. is_running s.state) services,
      not_running_iff,
      All-services_iff IsDown,
      counted_services,
    )
    moved-not_applied_iff stop = ground (
      arith,
      length-filter-eq-length_iff (λ s. is_running s.state) services,
      length-filter-none_iff (λ s. is_running s.state) services,
      running_iff,
      All-services_iff IsUp,
      counted_services,
    )
    moved-not_applied_iff restart =
        let (to, from) = restart_outcome-not_applied_iff started_after services i.fingerprint in
        (
          λ e.
              let (b, same, n, h) = to e in
              (b, same, rw counted_services at n, (All-services_iff _).0 h),
          λ r.
              let (b, same, n, h) = r in
              from (b, same, rw (← counted_services) at n, (All-services_iff _).1 h),
        )

  -- An operation is recorded as applied exactly when the host was read completely, every expected
  -- service has a container there that names no other revision, no other service has a container,
  -- and each service is running (start), is not running (stop), or is running in the container
  -- recorded before with a later start time (restart).
  pub classify-applied_iff :
      (classify_stack_lifecycle started_after i ≡ applied)
      ↔ ((i.snapshot_complete ≡ true) × IsSettled i × Reached i.operation)
  classify-applied_iff =
      let (to, from) = concluded_iff started_after i applied (inl refl) in
      (
        λ e.
            let (complete, settled, moved) = to e in
            (complete, settled, (moved-applied_iff settled.0 i.operation).0 moved),
        λ r.
            let (complete, settled, reached) = r in
            from (complete, settled, (moved-applied_iff settled.0 i.operation).1 reached),
      )

  -- An operation is recorded as not applied exactly when the host was read completely, every
  -- expected service has a container there that names no other revision, no other service has a
  -- container, there is an expected service, and each is not running (start), is running (stop), or
  -- is running in the container recorded before with no later start time (restart).
  pub classify-not_applied_iff :
      (classify_stack_lifecycle started_after i ≡ not_applied)
      ↔ ((i.snapshot_complete ≡ true) × IsSettled i × Untouched i.operation)
  classify-not_applied_iff =
      let (to, from) = concluded_iff started_after i not_applied (inr refl) in
      (
        λ e.
            let (complete, settled, moved) = to e in
            (complete, settled, (moved-not_applied_iff settled.0 i.operation).0 moved),
        λ r.
            let (complete, settled, untouched) = r in
            from (complete, settled, (moved-not_applied_iff settled.0 i.operation).1 untouched),
      )

  -- What was done stays unknown only when the host was not read completely, or for a restart.
  classify-unknown :
      (reason : String)
      → classify_stack_lifecycle started_after i ≡ unknown reason
      → (i.snapshot_complete ≡ false) ⊎ (i.operation ≡ restart)
  unfolding classify_stack_lifecycle moved_outcome
  classify-unknown reason e = elim (Option-cases (first_problem i i.expected_services)) [
    | inl clear ↦ ground arith
    | inr (p, problem) ↦ ground (arith, first_problem-needs_attention i i.expected_services p)
  ]
