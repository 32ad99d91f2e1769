-- ===== src/Stacks/Lifecycle/Restart.antt =====
-- The loop of `restartOutcome` in api/src/stacks/stack-lifecycle.ts.
use dockplane.Base.{
  ℕ, suc, ◌+◌, ◌≤◌, ◌<◌, subst, sym, some-injective, String, ◌≡◌, refl, ◌≢◌, ◌↔◌, Bool, true, false,
  Option, none, some, List, [], ◌∷◌, arith, ==_iff, string_eq, option_eq, Option-cases, Bool-cases,
  Sum-cases, ◌⊎◌, inl, inr, length, All, get_last,
}
use dockplane.Stacks.Lifecycle.{
  StackLifecycleOutcome, applied, not_applied, ObservedRuntime, RuntimeFingerprint, ended, counted,
  service_restarted, tally, Tally, restart_outcome, outcome_of,
}

module _ (started_after : String → String → Bool) where
  -- The service runs in the container it ran in before, and both start times are known; whether
  -- the later one is after the earlier is `restarted`.
  pub record Compares (before : List RuntimeFingerprint) (restarted : Bool) (s : ObservedRuntime)
      : Type 0 where
    pub running : s.state ≡ some "running"
    pub previous : RuntimeFingerprint
    pub recorded : get_last (λ p. p.service_name) s.service_name before ≡ some previous
    pub same_container : s.docker_id ≡ some previous.docker_id
    pub earlier : String
    pub now : String
    pub started_before : previous.started_at ≡ some earlier
    pub started_now : s.started_at ≡ some now
    pub ordered : started_after now earlier ≡ restarted

  module _ (before : List RuntimeFingerprint) where
    service_restarted-of_Compares :
        (b : Bool) (s : ObservedRuntime)
        → Compares before b s
        → service_restarted started_after before s ≡ inr b
    unfolding service_restarted
    service_restarted-of_Compares b s c =
        ground
          (arith, ==_iff s.state (some "running"), ==_iff (some c.previous.docker_id) s.docker_id)

    Compares-service_restarted :
        (b : Bool) (s : ObservedRuntime)
        → service_restarted started_after before s ≡ inr b
        → Compares before b s
    unfolding service_restarted
    Compares-service_restarted b s e =
        elim (Option-cases (get_last (λ p. p.service_name) s.service_name before)) [
          | inl missing ↦ absurd (ground arith)
          | inr (p, found) ↦ elim (Option-cases p.started_at) [
            | inl undated ↦ absurd (ground arith)
            | inr (earlier, dated) ↦ elim (Option-cases s.started_at) [
              | inl undated ↦ absurd (ground arith)
              | inr (now, dated_now) ↦ record {
                running = ground (arith, ==_iff s.state (some "running"));
                previous = p;
                recorded = found;
                same_container = ground (arith, ==_iff (some p.docker_id) s.docker_id);
                earlier = earlier;
                now = now;
                started_before = dated;
                started_now = dated_now;
                ordered = ground arith;
              }
            ]
          ]
        ]

    service_restarted-early :
        (s : ObservedRuntime) (o : StackLifecycleOutcome)
        → service_restarted started_after before s ≡ inl o
        → (o ≢ applied) × (o ≢ not_applied)
    unfolding service_restarted
    service_restarted-early s o e = ground arith

    pub tally-early :
        (xs : List ObservedRuntime) (r u : ℕ) (o : StackLifecycleOutcome)
        → tally started_after before xs r u ≡ ended o
        → (o ≢ applied) × (o ≢ not_applied)
    unfolding tally
    tally-early [] r u o e = absurd (ground arith)
    tally-early (s ∷ xs) r u o e =
        ground (
          arith,
          service_restarted-early s o,
          tally-early xs (suc r) u o,
          tally-early xs r (suc u) o,
        )

    -- The two counts add up to the services looked at.
    pub tally-total :
        (xs : List ObservedRuntime) (r u r' u' : ℕ)
        → tally started_after before xs r u ≡ counted r' u'
        → (r' + u' ≡ r + u + length xs) × (r ≤ r') × (u ≤ u')
    unfolding tally
    tally-total [] r u r' u' e = ground arith
    tally-total (s ∷ xs) r u r' u' e =
        ground (arith, tally-total xs (suc r) u r' u', tally-total xs r (suc u) r' u')

    pub tally-each_restarted :
        (xs : List ObservedRuntime) (r u : ℕ)
        → All (Compares before true) xs
        → tally started_after before xs r u ≡ counted (r + length xs) u
    unfolding tally
    tally-each_restarted [] r u h = ground arith
    tally-each_restarted (s ∷ xs) r u (c, h) =
        ground (arith, service_restarted-of_Compares true s c, tally-each_restarted xs (suc r) u h)

    pub tally-each_unchanged :
        (xs : List ObservedRuntime) (r u : ℕ)
        → All (Compares before false) xs
        → tally started_after before xs r u ≡ counted r (u + length xs)
    unfolding tally
    tally-each_unchanged [] r u h = ground arith
    tally-each_unchanged (s ∷ xs) r u (c, h) =
        ground (arith, service_restarted-of_Compares false s c, tally-each_unchanged xs r (suc u) h)

    each_restarted-tally :
        (xs : List ObservedRuntime) (r u u' : ℕ)
        → tally started_after before xs r u ≡ counted (r + length xs) u'
        → All (Compares before true) xs
    unfolding tally
    each_restarted-tally [] r u u' e = tt
    each_restarted-tally (s ∷ xs) r u u' e =
        elim (Sum-cases (service_restarted started_after before s)) [
          | inl (o, early) ↦ absurd (ground arith)
          | inr (b, judged) ↦ elim (Bool-cases b) [
            | inl later ↦ (
              Compares-service_restarted true s (ground arith),
              each_restarted-tally xs (suc r) u u' (ground arith),
            )
            | inr same ↦ absurd (ground (arith, tally-total xs r (suc u) (r + suc (length xs)) u'))
          ]
        ]

    each_unchanged-tally :
        (xs : List ObservedRuntime) (r u r' : ℕ)
        → tally started_after before xs r u ≡ counted r' (u + length xs)
        → All (Compares before false) xs
    unfolding tally
    each_unchanged-tally [] r u r' e = tt
    each_unchanged-tally (s ∷ xs) r u r' e =
        elim (Sum-cases (service_restarted started_after before s)) [
          | inl (o, early) ↦ absurd (ground arith)
          | inr (b, judged) ↦ elim (Bool-cases b) [
            | inl later ↦ absurd (ground (arith, tally-total xs (suc r) u r' (u + suc (length xs))))
            | inr same ↦ (
              Compares-service_restarted false s (ground arith),
              each_unchanged-tally xs r (suc u) r' (ground arith),
            )
          ]
        ]

    tally-cases :
        (t : Tally)
        → ((o : StackLifecycleOutcome) × (t ≡ ended o)) ⊎ ((r : ℕ) × (u : ℕ) × (t ≡ counted r u))
    tally-cases (ended o) = inl (o, refl)
    tally-cases (counted r u) = inr (r, u, refl)

    compared-applied_iff :
        (xs : List ObservedRuntime)
        → (restart_outcome started_after xs (some before) ≡ applied) ↔ All (Compares before true) xs
    unfolding restart_outcome outcome_of
    compared-applied_iff xs = (
      (λ e. elim (tally-cases (tally started_after before xs 0 0)) [
        | inl (o, early) ↦ absurd (ground (arith, tally-early xs 0 0 o early))
        | inr (r, u, full) ↦
            each_restarted-tally xs 0 0 u (ground (arith, tally-total xs 0 0 r u full))
      ]),
      λ h. ground (arith, tally-each_restarted xs 0 0 h),
    )

    compared-not_applied_iff :
        (xs : List ObservedRuntime)
        → (restart_outcome started_after xs (some before) ≡ not_applied)
          ↔ ((0 < length xs) × All (Compares before false) xs)
    unfolding restart_outcome outcome_of
    compared-not_applied_iff xs = (
      (λ e. elim (tally-cases (tally started_after before xs 0 0)) [
        | inl (o, early) ↦ absurd (ground (arith, tally-early xs 0 0 o early))
        | inr (r, u, full) ↦ (
          ground (arith, tally-total xs 0 0 r u full),
          each_unchanged-tally xs 0 0 r (ground (arith, tally-total xs 0 0 r u full)),
        )
      ]),
      λ h. ground (arith, tally-each_unchanged xs 0 0 h.1),
    )

  pub restart_outcome-applied_iff :
      (xs : List ObservedRuntime) (fp : Option (List RuntimeFingerprint))
      → (restart_outcome started_after xs fp ≡ applied)
        ↔ ((before : List RuntimeFingerprint) × (fp ≡ some before) × All (Compares before true) xs)
  unfolding restart_outcome
  restart_outcome-applied_iff xs none = ground arith
  restart_outcome-applied_iff xs (some before) = (
    (λ e. (before, refl, (compared-applied_iff before xs).0 e)),
    λ h.
        let (b, same, all_after) = h in
        let recorded =
          subst (λ b. All (Compares b true) xs) (sym (some-injective before b same)) all_after in
        (compared-applied_iff before xs).1 recorded,
  )

  pub restart_outcome-not_applied_iff :
      (xs : List ObservedRuntime) (fp : Option (List RuntimeFingerprint))
      → (restart_outcome started_after xs fp ≡ not_applied) ↔ (
          (before : List RuntimeFingerprint) × (fp ≡ some before)
          × (0 < length xs)
          × All (Compares before false) xs)
  unfolding restart_outcome
  restart_outcome-not_applied_iff xs none = ground arith
  restart_outcome-not_applied_iff xs (some before) = (
    (λ e.
        let (positive, unchanged) = (compared-not_applied_iff before xs).0 e in
        (before, refl, positive, unchanged)),
    λ h.
        let (b, same, positive, unchanged) = h in
        let recorded =
          subst (λ b. All (Compares b false) xs) (sym (some-injective before b same)) unchanged in
        (compared-not_applied_iff before xs).1 (positive, recorded),
  )
