-- ===== src/Containers/Reconciliation/Tests.antt =====
-- A run of api/src/containers/reconciliation.service.ts, from the rows to the decision.
use dockplane.Base.{◌≡◌, refl, true, false, none, some, [], ◌∷◌}
use dockplane.Containers.Recovery.{
  replace, promote_pending, classify_recovery, claim_problem, settle_operation, settle_candidate,
}
use dockplane.Containers.Store.{pending, running, Database}
use dockplane.Containers.Finalizer.{
  finalize, settle_attempt, apply, promote, claim, promoted_in, without_current, finish_action,
  record_outcome,
}
use dockplane.Containers.Reconciliation.{
  PendingOperation, row_of, claims_of, id_of, is_disputed, classify, claimed_docker_ids, context_of,
  reconcile_and_finalize,
}

-- The replacement "a1" of the container "k1" was interrupted, and its candidate "c2" runs.
abbrev replaced : Database
replaced = record {
  containers =
      record {
        id = "k1";
        host_id = "h1";
        docker_id = some "d7";
        name = "web";
        stack_id = none;
        identity_conflict = none;
        observed_desired_config_id = some "c2";
        updated_at = 3;
      }
      ∷ [];
  configs =
      record {
        id = "c2";
        container_id = "k1";
        state = pending;
        action_id = some "a1";
        updated_at = 2;
      }
      ∷ [];
  actions =
      record {
        id = "a1";
        capability = "container.replace";
        target_type = none;
        target_id = none;
        status = running;
        completed_at = none;
        error_code = none;
      }
      ∷ [];
  deployments = [];
  operations = [];
  stacks = [];
  audit = [];
}

abbrev operation : PendingOperation
operation = record {
  container_id = "k1";
  container_name = "web";
  host_id = "h1";
  operation = replace;
  action_id = some "a1";
}

runs : Unit {0}
unfolding finalize settle_attempt apply promote claim promoted_in without_current finish_action
    record_outcome classify classify_recovery claim_problem settle_operation settle_candidate
    claims_of id_of is_disputed context_of claimed_docker_ids reconcile_and_finalize
runs = tt

decision_run : (reconcile_and_finalize operation (true, replaced) 9).0 ≡ promote_pending "c2"
unfolding runs
decision_run = refl

finished_run :
    (finalize (context_of replaced operation) 9 (classify replaced operation true) replaced).0
    ≡ true
unfolding runs
finished_run = refl

undisputed_run : is_disputed (row_of replaced "k1") ≡ false
unfolding runs
undisputed_run = refl
