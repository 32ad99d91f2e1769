-- ===== src/Stacks/Lifecycle/Services.antt =====
-- When every service of api/src/stacks/stack-lifecycle.ts's input is on the host as expected.
use dockplane.Base.{
  suc, String, ◌≡◌, refl, ◌≢◌, ◌⊎◌, inl, inr, ◌↔◌, Option, none, some, List, [], ◌∷◌, arith, ==_iff,
  string_eq, option_eq, Option-cases, length, head?, All, In, has_iff, head?-filter-none_iff,
  All-map_iff, ap, sym, subst, some-injective,
}
use dockplane.Stacks.Lifecycle.{
  StackLifecycleInput, StackLifecycleOutcome, needs_attention, ObservedRuntime, by_service,
  service_problem, first_problem, extra, services_of,
}

-- The host shows a container for the service `name`, with `P` of it.
abbrev pub Shows : StackLifecycleInput → (ObservedRuntime → Type 0) → String → Type 0
Shows i P name = (s : ObservedRuntime) × (by_service i name ≡ some s) × P s

-- The container exists, and names no other revision than the one asked about.
abbrev pub IsPresent : String → ObservedRuntime → Type 0
IsPresent revision s =
    (s.docker_id ≢ none) × ((s.revision_id ≡ none) ⊎ (s.revision_id ≡ some revision))

-- Each expected service is there, and no container of another service is.
abbrev pub IsSettled : StackLifecycleInput → Type 0
IsSettled i =
    All (Shows i (IsPresent i.revision_id)) i.expected_services
    × All (λ s. s.docker_id ≢ none → In s.service_name i.expected_services) i.observed

service_problem-none_iff :
    (revision name : String) (o : Option ObservedRuntime)
    → (service_problem revision name o ≡ none)
      ↔ ((s : ObservedRuntime) × (o ≡ some s) × IsPresent revision s)
unfolding service_problem
service_problem-none_iff revision name none = ground arith
service_problem-none_iff revision name (some s) = (
  (λ h. (s, refl, ground (arith, ==_iff s.revision_id (some revision)))),
  λ h. let (t, same, present) = h in ground (arith, ==_iff s.revision_id (some revision)),
)

pub first_problem-none_iff :
    (i : StackLifecycleInput) (names : List String)
    → (first_problem i names ≡ none) ↔ All (Shows i (IsPresent i.revision_id)) names
unfolding first_problem
first_problem-none_iff i [] = ground arith
first_problem-none_iff i (name ∷ names) =
    let rest = first_problem-none_iff i names in
    let (to, from) = service_problem-none_iff i.revision_id name (by_service i name) in
    elim (Option-cases (service_problem i.revision_id name (by_service i name))) [
      | inl clear ↦ rw (clear, first_problem) (λ e. (to clear, rest.0 e), λ h. rest.1 h.1)
      | inr (o, found) ↦ rw (found, first_problem) (λ e. cc, λ h. let clear = from h.0 in cc)
    ]

-- An early return of the loop demands attention.
pub first_problem-needs_attention :
    (i : StackLifecycleInput) (names : List String) (o : StackLifecycleOutcome)
    → first_problem i names ≡ some o
    → (reason : String) × (o ≡ needs_attention reason)
unfolding first_problem service_problem
first_problem-needs_attention i [] o e = ground arith
first_problem-needs_attention i (name ∷ names) o e =
    ground (arith, first_problem-needs_attention i names o)

pub extra-none_iff :
    (i : StackLifecycleInput)
    → (head? (extra i) ≡ none)
      ↔ All (λ s. s.docker_id ≢ none → In s.service_name i.expected_services) i.observed
unfolding extra
extra-none_iff i =
    let (to, from) = head?-filter-none_iff _ i.observed in
    let (there, back) =
      All-map_iff (λ s. ground (arith, has_iff i.expected_services s.service_name)) i.observed in
    (λ e. there (to e), λ h. from (back h))

module _ (i : StackLifecycleInput) where
  -- Once each service is there, the list of services follows the list of names.
  pub length-services_of :
      (P : ObservedRuntime → Type 0) (names : List String)
      → All (Shows i P) names
      → length (services_of i names) ≡ length names
  unfolding services_of
  length-services_of P [] h = refl
  length-services_of P (name ∷ names) ((s, found, _), h) =
      rw (found, services_of) (ap suc (length-services_of P names h))

  pub All-services_of_iff :
      (P Q : ObservedRuntime → Type 0) (names : List String)
      → All (Shows i P) names
      → All Q (services_of i names) ↔ All (Shows i Q) names
  unfolding services_of
  All-services_of_iff P Q [] h = (λ q. tt, λ q. tt)
  All-services_of_iff P Q (name ∷ names) ((s, found, _), h) =
      let (to, from) = All-services_of_iff P Q names h in
      rw (found, services_of)
        (
          λ q. ((s, refl, q.0), to q.1),
          λ q. let (t, again, qt) = q.0 in (subst Q (sym (some-injective s t again)) qt, from q.1),
        )
