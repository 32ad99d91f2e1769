-- ===== src/Stacks/Apply.antt =====
-- api/src/stacks/stack-deployment.ts: what an attempt to apply a revision has done.
pub mod Exactly
pub mod Outcomes
mod Tests
use dockplane.Base.{
  ℕ, String, Bool, true, false, not, ◌&&◌, ◌||◌, Option, none, some, List, [], ◌∷◌, ◌==◌, ◌!=◌,
  nat_eq, string_eq, option_eq, is_some, is_none, if◌then◌else◌, length, filter, all, has, ◌<>◌,
  decimal,
}

pub data StackApplyOutcome : Type 0 where
  finalize_target finalize_from finalize_not_applied : StackApplyOutcome
  needs_attention unknown : (reason : String) → StackApplyOutcome

pub record ObservedService : Type 0 where
  pub service_name : String
  pub container_id : String
  pub docker_id : Option String
  pub state : Option String
  pub revision_id : Option String

pub record StackApplyInput : Type 0 where
  pub from_revision_id : Option String
  pub target_revision_id : String
  pub target_services : List String
  pub from_services : Option (List String)
  pub observed : List ObservedService
  pub snapshot_complete : Bool

pub live_services : List ObservedService → List ObservedService
live_services observed = filter (λ s. is_some s.docker_id) observed

-- The loop that collects the service names, up to the first name met twice.
pub duplicate : List String → List ObservedService → Option String
duplicate services [] = none
duplicate services (s ∷ live) =
    let rest = duplicate (s.service_name ∷ services) live in
    if has services s.service_name then some s.service_name else rest

-- `matches`
pub matches : List ObservedService → List String → String → Bool → Bool
matches live expected revision require_running =
    length live == length expected
    && all
        (λ s.
          has expected s.service_name
          && s.revision_id == some revision
          && (not require_running || s.state == some "running"))
        live

pub matches_from : List ObservedService → Option (List String) → Option String → Bool
matches_from live (some services) (some revision) = matches live services revision false
matches_from live _ _ = false

pub classify_stack_apply : StackApplyInput → StackApplyOutcome
classify_stack_apply i =
    if not i.snapshot_complete
    then unknown "the host was not read completely"
    else elim (duplicate [] live) [
      | some name ↦ needs_attention ("two containers are service " <> name)
      | none ↦
          if length live == 0
          then (if is_none i.from_revision_id
              then finalize_not_applied
              else needs_attention "the stack that was running is gone")
          else if matches live i.target_services i.target_revision_id true
          then finalize_target
          else if matches_from live i.from_services i.from_revision_id
          then finalize_from
          else needs_attention
              (decimal (length live) <> " containers are running and they are not one revision")
    ]
  where
    live : List ObservedService
    live = live_services i.observed
