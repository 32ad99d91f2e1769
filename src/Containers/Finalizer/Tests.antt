-- ===== src/Containers/Finalizer/Tests.antt =====
-- Runs of api/src/containers/recovery-finalizer.ts, and the theorems about it at these runs.
use dockplane.Base.{
  String, ◌≡◌, refl, true, false, none, some, [], ◌∷◌, All, Any, arith, ==_iff, string_eq,
}
use dockplane.Containers.Recovery.{replace, promote_pending, discard_pending}
use dockplane.Containers.Store.{current, pending, running, ConfigRow, Database}
use dockplane.Containers.Finalizer.{
  RecoveryContext, finish_action, claim, record_outcome, settle_attempt, without_current,
  promoted_in, promote, apply, finalize, discard, discard_claimed, discard_candidate, discarded_in,
}
use dockplane.Containers.Finalizer.Once.{finalize_once}
use dockplane.Containers.Finalizer.Promotion.{of_others, promotion}

abbrev config_row : String → ConfigRow
config_row id = record {
  id = id;
  container_id = "k1";
  state = current;
  action_id = none;
  updated_at = 1;
}

-- A replacement of the container "k1" was interrupted, with the candidate "c2".
abbrev interrupted : Database
interrupted = record {
  containers =
      record {
        id = "k1";
        host_id = "h1";
        docker_id = some "d1";
        name = "web";
        stack_id = none;
        identity_conflict = none;
        observed_desired_config_id = some "c2";
        updated_at = 1;
      }
      ∷ [];
  configs =
      config_row "c1"
      ∷ record (config_row "c2") { state = pending; action_id = some "a1" }
      ∷ record (config_row "c3") { container_id = "k2" }
      ∷ [];
  actions =
      record {
        id = "a1";
        capability = "container.replace";
        target_type = some "container";
        target_id = some "k1";
        status = running;
        completed_at = none;
        error_code = none;
      }
      ∷ [];
  deployments = [];
  operations = [];
  stacks = [];
  audit = [];
}

abbrev context : RecoveryContext
context = record {
  container_id = "k1";
  container_name = "web";
  host_id = "h1";
  operation = replace;
  action_id = some "a1";
  observed_docker_ids = [];
}

abbrev promoted : Database
promoted = (finalize context 5 (promote_pending "c2") interrupted).1

runs : Unit {0}
unfolding finalize settle_attempt apply promote claim promoted_in without_current finish_action
    record_outcome discard discard_claimed discard_candidate discarded_in
runs = tt

promote_run : finalize context 5 (promote_pending "c2") interrupted ≡ (true, promoted)
unfolding runs
promote_run = refl

missing_run : finalize context 5 (promote_pending "c9") interrupted ≡ (false, interrupted)
unfolding runs
missing_run = refl

promoted_rows :
    promoted.configs
    ≡ record (config_row "c2") { updated_at = 5 }
      ∷ record (config_row "c3") { container_id = "k2" }
      ∷ []
unfolding runs
promoted_rows = refl

finalize_once_example : finalize context 9 (discard_pending "c2") promoted ≡ (false, promoted)
finalize_once_example =
    finalize_once context context 5 9 (promote_pending "c2") (discard_pending "c2") interrupted
      promoted refl refl promote_run

promotion_example :
    Any (λ r. (r.id ≡ "c2") × (r.state ≡ current)) promoted.configs
    × All (λ r. r.container_id ≡ "k1" → r.state ≡ current → r.id ≡ "c2") promoted.configs
    × (of_others "k1" promoted.configs ≡ of_others "k1" interrupted.configs)
promotion_example =
    promotion context 5 "c2" interrupted promoted
      (ground (arith, ==_iff {A = String} "c3" "c2", ==_iff {A = String} "k2" "k1")) promote_run
