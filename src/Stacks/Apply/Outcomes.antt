-- ===== src/Stacks/Apply/Outcomes.antt =====
-- What each outcome of api/src/stacks/stack-deployment.ts says of the host.
use dockplane.Base.{
  String, ◌≡◌, ◌≢◌, ◌↔◌, true, false, Option, none, some, List, [], ◌∷◌, arith, Bool-cases, inl,
  inr, length, NoDup, All,
}
use dockplane.Stacks.Apply.{
  finalize_target, finalize_from, finalize_not_applied, StackApplyInput, ObservedService,
  live_services, duplicate, matches, matches_from, classify_stack_apply,
}
use dockplane.Stacks.Apply.Exactly.{names, duplicate-none_iff, Exactly, matches_iff}

no_seen : (xs : List String) → All (λ n. ¬ ⊥) xs
no_seen [] = tt
no_seen (x ∷ xs) = ((λ h. h), no_seen xs)

once_iff : (live : List ObservedService) → (duplicate [] live ≡ none) ↔ NoDup (names live)
once_iff live =
    let (to, from) = duplicate-none_iff [] live in
    (λ e. (to e).0, λ d. from (d, no_seen (names live)))

once_of_empty : (live : List ObservedService) → length live ≡ 0 → NoDup (names live)
once_of_empty [] h = tt
once_of_empty (s ∷ live) h = absurd (omega arith)

module _ (i : StackApplyInput) where
  abbrev pub live : List ObservedService
  live = live_services i.observed

  -- The attempt left the target revision exactly when the host was read completely, some container
  -- of the stack is there, no two are one service, and they are the services of the target, each
  -- of that revision and running. The services of the target are taken to be distinct.
  finalize_target_iff :
      NoDup i.target_services
      → (classify_stack_apply i ≡ finalize_target) ↔ (
          (i.snapshot_complete ≡ true)
          × (length live ≢ 0)
          × NoDup (names live)
          × Exactly live i.target_services i.target_revision_id true)
  unfolding classify_stack_apply
  finalize_target_iff distinct =
      let (once, not_twice) = once_iff live in
      let exact = matches_iff i.target_services i.target_revision_id true live in
      (
        (λ e.
            let unique = once (ground arith) in
            (ground arith, ground arith, unique, (exact unique distinct).0 (ground arith))),
        λ h. let unique = not_twice h.2 in let matched = (exact h.2 distinct).1 h.3 in ground arith,
      )

  abbrev pub IsFrom : Option (List String) → Option String → Type 0
  IsFrom (some services) (some revision) = Exactly live services revision false
  IsFrom _ _ = ⊥

  abbrev pub AreDistinct : Option (List String) → Type 0
  AreDistinct none = Unit
  AreDistinct (some services) = NoDup services

  matches_from_iff :
      (services : Option (List String)) (revision : Option String)
      → NoDup (names live)
      → AreDistinct services
      → (matches_from live services revision ≡ true) ↔ IsFrom services revision
  unfolding matches_from
  matches_from_iff (some services) (some revision) once distinct =
      matches_iff services revision false live once distinct
  matches_from_iff _ _ once distinct = ground arith

  -- The attempt left the revision it came from exactly when the host was read completely, some
  -- container of the stack is there, no two are one service, they are not the target running, and
  -- they are the services of a known earlier revision, each of it, running or not. The services of
  -- either revision are taken to be distinct.
  finalize_from_iff :
      NoDup i.target_services
      → AreDistinct i.from_services
      → (classify_stack_apply i ≡ finalize_from) ↔ (
          (i.snapshot_complete ≡ true)
          × (length live ≢ 0)
          × NoDup (names live)
          × (¬ Exactly live i.target_services i.target_revision_id true)
          × IsFrom i.from_services i.from_revision_id)
  unfolding classify_stack_apply
  finalize_from_iff distinct distinct_from =
      let (once, not_twice) = once_iff live in
      let target = matches_iff i.target_services i.target_revision_id true live in
      let origin = matches_from_iff i.from_services i.from_revision_id in
      (
        (λ e.
            let unique = once (ground arith) in
            (
              ground arith,
              ground arith,
              unique,
              (λ x. let hit = (target unique distinct).1 x in ground arith),
              (origin unique distinct_from).0 (ground arith),
            )),
        λ h.
            let unique = not_twice h.2 in
            let miss : matches live i.target_services i.target_revision_id true ≡ false =
              elim (Bool-cases (matches live i.target_services i.target_revision_id true)) [
                | inl hit ↦ absurd (h.3 ((target h.2 distinct).0 hit))
                | inr other ↦ other
              ] in
            let matched = (origin h.2 distinct_from).1 h.4 in ground arith,
      )

  -- Nothing was applied exactly when the host was read completely, holds no container of the stack,
  -- and there was no earlier revision.
  nothing_applied_iff :
      (classify_stack_apply i ≡ finalize_not_applied)
      ↔ ((i.snapshot_complete ≡ true) × (length live ≡ 0) × (i.from_revision_id ≡ none))
  unfolding classify_stack_apply
  nothing_applied_iff = (
    (λ e. (ground arith, ground arith, ground arith)),
    λ h. let none_twice = (once_iff live).1 (once_of_empty live h.1) in ground arith,
  )
