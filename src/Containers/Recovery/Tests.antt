-- ===== src/Containers/Recovery/Tests.antt =====
-- Runs of api/src/containers/recovery.ts, and the theorems about it at these runs.
use dockplane.Base.{
  String, ◌≡◌, refl, ◌≢◌, ◌↔◌, ◌⊎◌, Bool, true, false, Option, none, some, List, [], ◌∷◌,
}
use dockplane.Containers.Recovery.{
  replace, remove, promote_pending, discard_pending, finalize_remove, identity_conflict,
  ObservedClaim, RecoveryInput, settle_candidate, settle_operation, claim_problem,
  classify_recovery,
}
use dockplane.Containers.Recovery.Outcomes.{Settles, Carries, IsCandidate, promote_iff}

abbrev claimed : String → ObservedClaim
claimed config = record { docker_id = "d1"; desired_config_id = some config }

abbrev replacing : List ObservedClaim → RecoveryInput
replacing claims = record {
  operation = replace;
  current_desired_config_id = some "c1";
  pending_desired_config_id = some "c2";
  claims = claims;
  snapshot_complete = true;
  recovery_eligible = true;
  identity_conflict = false;
}

abbrev removing : RecoveryInput
removing = record (replacing []) { operation = remove; pending_desired_config_id = none }

recovery_runs :
    (classify_recovery (replacing (claimed "c2" ∷ [])) ≡ promote_pending "c2")
    × (classify_recovery (replacing (claimed "c1" ∷ [])) ≡ discard_pending "c2")
    × (classify_recovery removing ≡ finalize_remove)
    × (classify_recovery (replacing (claimed "c1" ∷ claimed "c2" ∷ []))
        ≡ identity_conflict "2 containers claim this resource")
unfolding classify_recovery claim_problem settle_operation settle_candidate dockplane.Base.decimal
recovery_runs = (refl, refl, refl, refl)

promote_iff_example :
    (classify_recovery (replacing (claimed "c2" ∷ [])) ≡ promote_pending "c2")
    ↔ Settles
        (replacing (claimed "c2" ∷ []))
        (λ o. IsCandidate replace (some "c2") "c2" × Carries "c2" o)
promote_iff_example = promote_iff (replacing (claimed "c2" ∷ [])) "c2"
