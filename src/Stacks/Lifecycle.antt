-- ===== src/Stacks/Lifecycle.antt =====
-- api/src/stacks/stack-lifecycle.ts: what starting, stopping or restarting a stack has done.
-- `null` and `undefined` are `none`. `Date.parse(a) > Date.parse(b)` is the parameter
-- `started_after a b`: the reading of dates is JavaScript's.
pub mod Services
pub mod Restart
pub mod Outcomes
mod Tests
use dockplane.Base.{
  ℕ, suc, String, ◌⊎◌, inl, inr, Bool, not, ◌&&◌, Option, none, some, List, [], ◌∷◌, ◌==◌, ◌!=◌,
  nat_eq, string_eq, option_eq, is_some, is_none, if◌then◌else◌, length, filter, head?, get_last,
  has, ◌<>◌,
}

pub data StackLifecycleKind : Type 0 where
  start stop restart : StackLifecycleKind

pub data StackLifecycleOutcome : Type 0 where
  applied not_applied : StackLifecycleOutcome
  needs_attention unknown : (reason : String) → StackLifecycleOutcome

-- One service of the stack, as the host shows it now.
pub record ObservedRuntime : Type 0 where
  pub service_name : String
  pub container_id : String
  pub docker_id : Option String
  pub state : Option String
  pub revision_id : Option String
  pub started_at : Option String

pub record RuntimeFingerprint : Type 0 where
  pub service_name : String
  pub container_id : String
  pub docker_id : String
  pub started_at : Option String

pub record StackLifecycleInput : Type 0 where
  pub operation : StackLifecycleKind
  pub revision_id : String
  pub expected_services : List String
  pub observed : List ObservedRuntime
  pub fingerprint : Option (List RuntimeFingerprint)
  pub snapshot_complete : Bool

abbrev pub is_running : Option String → Bool
is_running state = state == some "running"

-- `byService.get(name)`
abbrev pub by_service : StackLifecycleInput → String → Option ObservedRuntime
by_service i name = get_last (λ s. s.service_name) name i.observed

-- One round of the loop over the expected services; `none` goes on to the next.
unfoldable pub service_problem :
    String → String → Option ObservedRuntime → Option StackLifecycleOutcome
service_problem revision name none =
    some (needs_attention (name <> " has no container on the host"))
service_problem revision name (some s) =
    if is_none s.docker_id
    then some (needs_attention (name <> " has no container on the host"))
    else if is_some s.revision_id && s.revision_id != some revision
    then some (needs_attention (name <> " is running another revision"))
    else none

unfoldable pub first_problem : StackLifecycleInput → List String → Option StackLifecycleOutcome
unfolding service_problem
first_problem i [] = none
first_problem i (name ∷ names) = elim (service_problem i.revision_id name (by_service i name)) [
  | none ↦ first_problem i names
  | some outcome ↦ some outcome
]

-- The containers of services that the revision does not describe.
unfoldable pub extra : StackLifecycleInput → List ObservedRuntime
extra i =
    filter (λ s. is_some s.docker_id && not (has i.expected_services s.service_name)) i.observed

-- `input.expectedServices.map((name) => byService.get(name)!)`: each is there once no problem is.
unfoldable pub services_of : StackLifecycleInput → List String → List ObservedRuntime
services_of i [] = []
services_of i (name ∷ names) = elim (by_service i name) [
  | none ↦ services_of i names
  | some s ↦ s ∷ services_of i names
]

-- The loop of `restartOutcome`: an early return, or the two counts.
pub data Tally : Type 0 where
  ended : StackLifecycleOutcome → Tally
  counted : (restarted unchanged : ℕ) → Tally

module _ (started_after : String → String → Bool) where
  -- What one service says: an early return, or whether it was restarted.
  pub service_restarted : List RuntimeFingerprint → ObservedRuntime → StackLifecycleOutcome ⊎ Bool
  service_restarted before s =
      if not (is_running s.state)
      then inl (needs_attention (s.service_name <> " is not running"))
      else compared (get_last (λ p. p.service_name) s.service_name before)
    where
      stranger : StackLifecycleOutcome
      stranger = unknown (s.service_name <> " is not the container the restart was for")

      undated : StackLifecycleOutcome
      undated = unknown ("the host does not say when " <> s.service_name <> " was started")

      compared : Option RuntimeFingerprint → StackLifecycleOutcome ⊎ Bool
      compared none = inl stranger
      compared (some previous) =
          if some previous.docker_id != s.docker_id
          then inl stranger
          else elim previous.started_at [
            | none ↦ inl undated
            | some earlier ↦ elim s.started_at [
              | none ↦ inl undated
              | some now ↦ inr (started_after now earlier)
            ]
          ]

  pub tally : List RuntimeFingerprint → List ObservedRuntime → ℕ → ℕ → Tally
  tally before [] restarted unchanged = counted restarted unchanged
  tally before (s ∷ services) restarted unchanged =
      let more = tally before services (suc restarted) unchanged in
      let same = tally before services restarted (suc unchanged) in
      elim (service_restarted before s) [
        | inl outcome ↦ ended outcome
        | inr later ↦ if later then more else same
      ]

  pub outcome_of : ℕ → Tally → StackLifecycleOutcome
  outcome_of total (ended outcome) = outcome
  outcome_of total (counted restarted unchanged) =
      if restarted == total
      then applied
      else if unchanged == total
      then not_applied
      else needs_attention "part of the stack was restarted and part was not"

  unfoldable pub restart_outcome :
      List ObservedRuntime → Option (List RuntimeFingerprint) → StackLifecycleOutcome
  restart_outcome services none = unknown "there is nothing to compare the restart against"
  restart_outcome services (some before) = outcome_of (length services) (tally before services 0 0)

  unfoldable pub moved_outcome :
      StackLifecycleInput → List ObservedRuntime → StackLifecycleKind → StackLifecycleOutcome
  moved_outcome i services stop =
      let running = filter (λ s. is_running s.state) services in
      if length running == 0
      then applied
      else if length running == length services
      then not_applied
      else needs_attention "part of the stack is stopped and part is running"
  moved_outcome i services start =
      let running = filter (λ s. is_running s.state) services in
      if length running == length services
      then applied
      else if length running == 0
      then not_applied
      else needs_attention "part of the stack is running and part is not"
  moved_outcome i services restart = restart_outcome services i.fingerprint

  unfoldable pub classify_stack_lifecycle : StackLifecycleInput → StackLifecycleOutcome
  classify_stack_lifecycle i =
      if not i.snapshot_complete
      then unknown "the host was not read completely"
      else elim (first_problem i i.expected_services) [
        | some outcome ↦ outcome
        | none ↦ elim (head? (extra i)) [
          | some s ↦ needs_attention (
              "the host holds " <> s.service_name
              <> ", which this stack's revision does not describe")
          | none ↦ moved_outcome i (services_of i i.expected_services) i.operation
        ]
      ]
