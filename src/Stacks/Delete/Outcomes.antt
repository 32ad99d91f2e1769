-- ===== src/Stacks/Delete/Outcomes.antt =====
-- What each outcome of api/src/stacks/stack-delete.ts says of the host.
use dockplane.Base.{
  String, ◌≡◌, ◌≢◌, ◌↔◌, true, false, not, none, List, arith, string_eq, is_some, length, map, find,
  All, Any, In, has, has_iff, set_of, In-set_of_iff, set_of-NoDup, In-map_iff, Any-filter_iff,
  Any-map_iff, All-map_iff, covers_of_length, length_of_NoDup, length-filter-none_iff,
  find-eq-none_iff, All-image_iff, length-filter-pos_iff,
}
use dockplane.Stacks.Delete.{
  StackDeleteInput, finalize_deleted, finalize_not_applied, ObservedClaim, present_claims,
  classify_stack_delete,
}

-- A container on the host claims the service `name`.
abbrev pub Claims : StackDeleteInput → String → Type 0
Claims i name = Any (λ c. (c.docker_id ≢ none) × (c.service_name ≡ name)) i.observed

module _ (i : StackDeleteInput) where
  -- A deletion is final exactly when the host was read completely and no container on it claims to
  -- be of the stack.
  pub finalize_deleted_iff :
      (classify_stack_delete i ≡ finalize_deleted)
      ↔ ((i.snapshot_complete ≡ true) × All (λ c. c.docker_id ≡ none) i.observed)
  unfolding classify_stack_delete present_claims
  finalize_deleted_iff =
      let gone =
        All-map_iff {P = λ c. is_some c.docker_id ≡ false} {Q = λ c. c.docker_id ≡ none}
          (λ (c : ObservedClaim). ground arith) i.observed in
      ground (arith, length-filter-none_iff (λ c. is_some c.docker_id) i.observed, gone)

  abbrev claimed : List String
  claimed = map (λ c. c.service_name) (present_claims i.observed)

  In-claimed_iff : (name : String) → In name claimed ↔ Claims i name
  unfolding present_claims
  In-claimed_iff name =
      let (to, from) = In-map_iff (λ c. c.service_name) name (present_claims i.observed) in
      let (there, back) =
        Any-filter_iff (λ c. c.service_name ≡ name) (λ c. is_some c.docker_id) i.observed in
      let (last, first) =
        Any-map_iff {P = λ c. (is_some c.docker_id ≡ true) × (c.service_name ≡ name)}
          {Q = λ c. (c.docker_id ≢ none) × (c.service_name ≡ name)}
          (λ (c : ObservedClaim). ground arith) i.observed in
      (λ h. last (there (to h)), λ h. from (back (first h)))

  -- As many services are claimed as are expected exactly when each expected one is claimed.
  sizes_iff :
      ((name : String) → In name claimed → In name i.expected_services)
      → (length (set_of claimed) ≡ length (set_of i.expected_services))
        ↔ ((name : String) → In name i.expected_services → In name claimed)
  sizes_iff within = (
    λ e name h. (In-set_of_iff name claimed).0 (
        covers_of_length (set_of claimed) (set_of i.expected_services) (set_of-NoDup claimed)
          (λ a j.
            (In-set_of_iff a i.expected_services).1 (within a ((In-set_of_iff a claimed).0 j)))
          (omega arith) name ((In-set_of_iff name i.expected_services).1 h)),
    λ covered.
        length_of_NoDup (set_of claimed) (set_of i.expected_services) (set_of-NoDup claimed)
          (set_of-NoDup i.expected_services)
          (λ a. (
            λ j. (In-set_of_iff a i.expected_services).1 (within a ((In-set_of_iff a claimed).0 j)),
            λ j.
                (In-set_of_iff a claimed).1 (covered a ((In-set_of_iff a i.expected_services).0 j)),
          )),
  )

  within_iff :
      (find (λ c. not (has i.expected_services c.service_name)) (present_claims i.observed) ≡ none)
      ↔ ((name : String) → In name claimed → In name i.expected_services)
  within_iff =
      let (to, from) =
        find-eq-none_iff (λ c. not (has i.expected_services c.service_name))
          (present_claims i.observed) in
      let (there, back) =
        All-map_iff {P = λ c. not (has i.expected_services c.service_name) ≡ false}
          {Q = λ c. In c.service_name i.expected_services}
          (λ c. ground (arith, has_iff i.expected_services c.service_name))
          (present_claims i.observed) in
      let (out, back_in) =
        All-image_iff (λ c. c.service_name) (λ n. In n i.expected_services)
          (present_claims i.observed) in
      (λ e. out (there (to e)), λ h. from (back (back_in h)))

  unchanged_iff : (classify_stack_delete i ≡ finalize_not_applied) ↔ (
      (i.snapshot_complete ≡ true)
      × (length (present_claims i.observed) ≢ 0)
      × (find (λ c. not (has i.expected_services c.service_name)) (present_claims i.observed)
          ≡ none)
      × (length (set_of claimed) ≡ length (set_of i.expected_services)))
  unfolding classify_stack_delete
  unchanged_iff = ground arith

  present_iff : (length (present_claims i.observed) ≢ 0) ↔ Any (λ c. c.docker_id ≢ none) i.observed
  unfolding present_claims
  present_iff =
      let (to, from) = length-filter-pos_iff (λ c. is_some c.docker_id) i.observed in
      let (there, back) =
        Any-map_iff {P = λ c. is_some c.docker_id ≡ true} {Q = λ c. c.docker_id ≢ none}
          (λ (c : ObservedClaim). ground arith) i.observed in
      (λ h. there (to h), λ h. from (back h))

  -- A deletion is recorded as not applied exactly when the host was read completely, some container
  -- on it claims to be of the stack, and the services claimed are just those that were deployed.
  delete_not_applied_iff : (classify_stack_delete i ≡ finalize_not_applied) ↔ (
      (i.snapshot_complete ≡ true)
      × Any (λ c. c.docker_id ≢ none) i.observed
      × ((name : String) → Claims i name ↔ In name i.expected_services))
  delete_not_applied_iff = (
    λ e.
        let (complete, some_left, inside, sizes) = unchanged_iff.0 e in
        let within = within_iff.0 inside in
        (
          complete,
          present_iff.0 some_left,
          λ name. (
            λ h. within name ((In-claimed_iff name).1 h),
            λ h. (In-claimed_iff name).0 ((sizes_iff within).0 sizes name h),
          ),
        ),
    λ h.
        let (complete, some_left, exact) = h in
        let within : ((name : String) → In name claimed → In name i.expected_services) =
          λ name j. (exact name).0 ((In-claimed_iff name).0 j) in
        unchanged_iff.1 (
          complete,
          present_iff.1 some_left,
          within_iff.1 within,
          (sizes_iff within).1 (λ name j. (In-claimed_iff name).1 ((exact name).1 j)),
        ),
  )
