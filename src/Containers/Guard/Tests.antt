-- ===== src/Containers/Guard/Tests.antt =====
-- Runs of api/src/containers/pending-guard.ts after a recovery, and the theorems about it there.
use dockplane.Base.{
  ◌≡◌, refl, ◌≢◌, ◌↔◌, true, none, some, [], ◌∷◌, All, arith, find, ◌==◌, string_eq, inl, ok,
}
use dockplane.Containers.Recovery.{
  replace, RecoveryDecision, promote_pending, identity_conflict, needs_attention,
}
use dockplane.Containers.Store.{pending, running, ContainerRow, Database}
use dockplane.Containers.Finalizer.{
  RecoveryContext, finish_action, claim, record_outcome, settle_attempt, without_current,
  promoted_in, promote, apply, finalize, attention_claimed, conflict_claimed, conflicted_in,
}
use dockplane.Containers.Guard.{assert_resolved, assert_stack_settled, assert_operable}
use dockplane.Containers.Guard.Conditions.{IsFree, IsOver, IsOperableRow, operable_iff}
use dockplane.Containers.Guard.AfterRecovery.{conflict_refuses, promotion_resolves}

abbrev container_row : ContainerRow
container_row = record {
  id = "k1";
  host_id = "h1";
  docker_id = some "d1";
  name = "web";
  stack_id = none;
  identity_conflict = none;
  observed_desired_config_id = some "c2";
  updated_at = 1;
}

-- A replacement of the container "k1" was interrupted, with the candidate "c2".
abbrev interrupted : Database
interrupted = record {
  containers = container_row ∷ [];
  configs =
      record {
        id = "c2";
        container_id = "k1";
        state = pending;
        action_id = some "a1";
        updated_at = 1;
      }
      ∷ [];
  actions =
      record {
        id = "a1";
        capability = "container.replace";
        target_type = some "container";
        target_id = some "k1";
        status = running;
        completed_at = none;
        error_code = none;
      }
      ∷ [];
  deployments = [];
  operations = [];
  stacks = [];
  audit = [];
}

abbrev context : RecoveryContext
context = record {
  container_id = "k1";
  container_name = "web";
  host_id = "h1";
  operation = replace;
  action_id = some "a1";
  observed_docker_ids = "d1" ∷ "d2" ∷ [];
}

abbrev after : RecoveryDecision → Database
after decision = (finalize context 5 decision interrupted).1

runs : Unit {0}
unfolding finalize settle_attempt apply promote claim promoted_in without_current finish_action
    record_outcome attention_claimed conflict_claimed conflicted_in assert_operable assert_resolved
    assert_stack_settled
runs = tt

promote_run :
    finalize context 5 (promote_pending "c2") interrupted ≡ (true, after (promote_pending "c2"))
unfolding runs
promote_run = refl

attention_run :
    finalize context 5 (needs_attention "lost") interrupted ≡ (true, after (needs_attention "lost"))
unfolding runs
attention_run = refl

conflict_run :
    finalize context 5 (identity_conflict "two") interrupted
    ≡ (true, after (identity_conflict "two"))
unfolding runs
conflict_run = refl

operable_run : assert_operable (after (promote_pending "c2")) "k1" ≡ ok tt
unfolding runs
operable_run = refl

operable_iff_example : (assert_operable (after (promote_pending "c2")) "k1" ≡ ok tt) ↔ (
    All (IsFree "k1") (after (promote_pending "c2")).configs
    × All (IsOver "k1") (after (promote_pending "c2")).actions
    × IsOperableRow
        (after (promote_pending "c2"))
        (find (λ c. c.id == "k1") (after (promote_pending "c2")).containers))
operable_iff_example = operable_iff (after (promote_pending "c2")) "k1"

conflict_refuses_example : assert_operable (after (identity_conflict "two")) "k1" ≢ ok tt
conflict_refuses_example =
    conflict_refuses context 5 interrupted (after (identity_conflict "two")) "two" conflict_run
      (inl refl)

promotion_resolves_example : assert_resolved (after (promote_pending "c2")) "k1" ≡ ok tt
promotion_resolves_example =
    promotion_resolves context 5 interrupted (after (promote_pending "c2")) "c2" refl (ground arith)
      (ground arith) promote_run
