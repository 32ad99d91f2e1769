-- ===== src/Containers/Recovery.antt =====
-- api/src/containers/recovery.ts: what to do about a mutation that nobody is running any more.
pub mod Outcomes
mod Tests
use dockplane.Base.{
  ℕ, String, Bool, not, ◌&&◌, Option, none, some, List, ◌==◌, ◌!=◌, nat_eq, string_eq, option_eq,
  is_none, if◌then◌else◌, length, head?, is_blank, ltb, ◌<>◌, decimal,
}

pub data RecoveryOperation : Type 0 where
  create replace remove : RecoveryOperation

pub data RecoveryDecision : Type 0 where
  promote_pending discard_pending : (desired_config_id : String) → RecoveryDecision
  finalize_remove : RecoveryDecision
  fail_operation identity_conflict needs_attention no_action : (reason : String) → RecoveryDecision

pub record ObservedClaim : Type 0 where
  pub docker_id : String
  pub desired_config_id : Option String

pub record RecoveryInput : Type 0 where
  pub operation : RecoveryOperation
  pub current_desired_config_id : Option String
  pub pending_desired_config_id : Option String
  pub claims : List ObservedClaim
  pub snapshot_complete : Bool
  pub recovery_eligible : Bool
  -- Absent counts as false.
  pub identity_conflict : Bool

-- A create or a replacement with its candidate `pending`, once the claim is known to be coherent.
unfoldable pub settle_candidate :
    RecoveryOperation → String → Option ObservedClaim → RecoveryDecision
settle_candidate create pending none = discard_pending pending
settle_candidate _ pending none = needs_attention "the container is gone entirely"
settle_candidate _ pending (some claim) =
    if claim.desired_config_id == some pending
    then promote_pending pending
    else discard_pending pending

unfoldable pub settle_operation :
    RecoveryOperation → Option String → Option ObservedClaim → RecoveryDecision
settle_operation remove pending none = finalize_remove
settle_operation remove pending (some claim) = fail_operation "the container was not removed"
settle_operation operation none claim = no_action "nothing is pending"
settle_operation operation (some pending) claim =
    if is_blank (some pending)
    then no_action "nothing is pending"
    else settle_candidate operation pending claim

unfoldable pub claim_problem : RecoveryInput → Option ObservedClaim → Option RecoveryDecision
claim_problem i none = none
claim_problem i (some claim) =
    if is_none claim.desired_config_id
    then some (needs_attention "the container carries no configuration identity")
    else if claim.desired_config_id != i.current_desired_config_id
        && claim.desired_config_id != i.pending_desired_config_id
    then some (needs_attention "the container claims a configuration this resource does not have")
    else none

unfoldable pub classify_recovery : RecoveryInput → RecoveryDecision
classify_recovery i =
    if not i.recovery_eligible
    then no_action "a mutation is still running against this container"
    else if i.identity_conflict
    then identity_conflict "this resource is already in conflict"
    else if ltb 1 (length i.claims)
    then identity_conflict (decimal (length i.claims) <> " containers claim this resource")
    else if not i.snapshot_complete
    then no_action "the last discovery did not complete"
    else elim (claim_problem i (head? i.claims)) [
      | some decision ↦ decision
      | none ↦ settle_operation i.operation i.pending_desired_config_id (head? i.claims)
    ]
