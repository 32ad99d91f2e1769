-- ===== src/Containers/Finalizer.antt =====
-- api/src/containers/recovery-finalizer.ts: writing down what an interrupted mutation turned out to
-- mean. A transaction is a function of the database; `stale` is the thrown `StaleRecovery`, which
-- rolls it back. The time of the call is an argument. Logging is left out.
pub mod Once
pub mod Effects
pub mod Promotion
mod Tests
use dockplane.Base.{
  ℕ, String, Bool, true, false, not, ◌&&◌, Option, none, some, List, [], ◌∷◌, ◌++◌, ◌==◌, string_eq,
  option_eq, is_none, if◌then◌else◌, any, update_where, delete_where, is_blank, or_else,
}
use dockplane.Containers.Recovery.{
  RecoveryOperation, create, replace, remove, RecoveryDecision, promote_pending, discard_pending,
  finalize_remove, fail_operation, identity_conflict, needs_attention, no_action,
}
use dockplane.Containers.Store.{
  ConfigState, current, pending, ActionStatus, succeeded, failed, ContainerRow, ConfigRow,
  ActionRow, AuditRow, Database, is_pending, is_current, is_unfinished,
}

pub record RecoveryContext : Type 0 where
  pub container_id : String
  pub container_name : String
  pub host_id : String
  pub operation : RecoveryOperation
  pub action_id : Option String
  pub observed_docker_ids : List String

pub record Outcome : Type 0 where
  pub action : String
  pub result : String
  pub reason_code : Option String

pub data Attempt : Type 0 where
  done : Option Outcome → Database → Attempt
  stale : Attempt

-- Closes the action that the operator started. A column whose value is undefined is not set.
unfoldable pub finish_action :
    RecoveryContext → ActionStatus → Option String → ℕ → Database → Database
finish_action ctx status error now db = if is_blank ctx.action_id then db else record db {
  actions =
      update_where (λ a. some a.id == ctx.action_id)
        (λ a. record a {
          status = status;
          completed_at = some now;
          error_code = elim error [ none ↦ a.error_code | some code ↦ some code ];
        })
        db.actions;
}

-- `delete from containers where …`: the configurations go with their container.
pub delete_containers : (ContainerRow → Bool) → Database → Database
delete_containers p db = record db {
  containers = delete_where p db.containers;
  configs = delete_where (λ r. any (λ c. p c && c.id == r.container_id) db.containers) db.configs;
}

-- Whether the unfinished mutation is this call's to finish.
unfoldable pub claim : RecoveryContext → Option String → Database → Bool
claim ctx config db =
    if not (is_blank ctx.action_id)
    then any (λ a. some a.id == ctx.action_id && is_unfinished a.status) db.actions
    else if is_blank config
    then false
    else any (λ r. some r.id == config && is_pending r.state && is_none r.action_id) db.configs

discarded_outcome : Outcome
discarded_outcome = record {
  action = "container.recovery.discarded";
  result = "failure";
  reason_code = none;
}

-- One entry in the audit trail, as a recovery and not as something that a person did.
unfoldable pub record_outcome : RecoveryContext → Outcome → Database → Database
record_outcome ctx o db = record db {
  audit =
      db.audit
      ++ record {
        action = o.action;
        result = o.result;
        actor_label = "container-recovery";
        target_type = "container";
        target_id = ctx.container_id;
        target_label = ctx.container_name;
        reason_code = elim ctx.action_id [ none ↦ o.reason_code | some a ↦ some a ];
      }
        ∷ [];
}

unfoldable pub settle_attempt : RecoveryContext → Database → Attempt → Bool × Database
settle_attempt ctx db (done none db') = (false, db')
settle_attempt ctx db (done (some o) db') = (true, record_outcome ctx o db')
settle_attempt ctx db stale = (false, db)

module _ (ctx : RecoveryContext) (now : ℕ) where
  -- The configurations left once the current one is removed.
  unfoldable pub without_current : Database → List ConfigRow
  without_current db =
      delete_where (λ r. r.container_id == ctx.container_id && is_current r.state) db.configs

  unfoldable pub promoted_in : String → Database → Database
  promoted_in config db = record db {
    configs =
        update_where (λ r. r.id == config && is_pending r.state)
          (λ r. record r { state = current; action_id = none; updated_at = now })
          (without_current db);
  }

  unfoldable pub promote : String → Database → Attempt
  promote config db =
      if not (claim ctx (some config) db)
      then done none db
      else if any (λ r. r.id == config && is_pending r.state) (without_current db)
      then done
          (some (record {
            action = "container.recovery.promoted";
            result = "success";
            reason_code = none;
          }))
          (finish_action ctx succeeded none now (promoted_in config db))
      else stale

  -- A create that produced nothing: the resource goes, unless a container was seen since.
  pub released_in : Database → Database
  released_in db = delete_containers (λ c. c.id == ctx.container_id && is_none c.docker_id) db

  pub release_created : Database → Attempt
  unfolding discarded_outcome
  release_created db =
      if any (λ c. c.id == ctx.container_id && is_none c.docker_id) db.containers
      then done (some discarded_outcome)
          (finish_action ctx failed (some "CONTAINER_CREATE_FAILED") now (released_in db))
      else done none db

  pub discarded_in : String → Database → Database
  discarded_in config db = record db {
    configs = delete_where (λ r. r.id == config && is_pending r.state) db.configs;
  }

  pub discard_candidate : String → Database → Attempt
  unfolding discarded_outcome
  discard_candidate config db =
      if any (λ r. r.id == config && is_pending r.state) db.configs
      then done (some discarded_outcome)
          (finish_action ctx failed (some "REPLACEMENT_FAILED") now (discarded_in config db))
      else done none db

  pub discard_claimed : RecoveryOperation → String → Database → Attempt
  discard_claimed create config db = release_created db
  discard_claimed _ config db = discard_candidate config db

  pub discard : String → Database → Attempt
  discard config db =
      if not (claim ctx (some config) db)
      then done none db
      else discard_claimed ctx.operation config db

  pub finalize_removed : Database → Attempt
  finalize_removed db =
      if not (claim ctx none db)
      then done none db
      else done
          (some (record {
            action = "container.recovery.removed";
            result = "success";
            reason_code = none;
          }))
          (finish_action ctx succeeded none now
            (delete_containers (λ c. c.id == ctx.container_id) db))

  pub fail_claimed : Database → Attempt
  fail_claimed db =
      if not (claim ctx none db)
      then done none db
      else done
          (some (record {
            action = "container.recovery.failed";
            result = "failure";
            reason_code = none;
          }))
          (finish_action ctx failed (some "CONTAINER_REMOVE_FAILED") now db)

  unfoldable pub conflicted_in : Database → Database
  conflicted_in db = record db {
    containers =
        update_where (λ c. c.id == ctx.container_id)
          (λ c. record c { identity_conflict = some ctx.observed_docker_ids; updated_at = now })
          db.containers;
  }

  unfoldable pub conflict_claimed : Database → Attempt
  conflict_claimed db =
      if not (claim ctx none db)
      then done none db
      else done
          (some (record {
            action = "container.recovery.conflicted";
            result = "failure";
            reason_code = some "CONTAINER_IDENTITY_CONFLICT";
          }))
          (finish_action ctx failed (some "CONTAINER_IDENTITY_CONFLICT") now (conflicted_in db))

  unfoldable pub attention_claimed : Database → Attempt
  attention_claimed db =
      if not (claim ctx none db)
      then done none db
      else done
          (some (record {
            action = "container.recovery.needs_attention";
            result = "failure";
            reason_code = some "CONTAINER_STATE_UNRESOLVED";
          }))
          (finish_action ctx failed (some "CONTAINER_STATE_UNRESOLVED") now db)

  unfoldable pub apply : RecoveryDecision → Database → Attempt
  apply (promote_pending config) db = promote config db
  apply (discard_pending config) db = discard config db
  apply finalize_remove db = finalize_removed db
  apply (fail_operation reason) db = fail_claimed db
  apply (identity_conflict reason) db = conflict_claimed db
  apply (needs_attention reason) db = attention_claimed db
  apply (no_action reason) db = done none db

  -- Whether this call was the one that finished the mutation, and the database after it.
  unfoldable pub finalize : RecoveryDecision → Database → Bool × Database
  finalize (no_action reason) db = (false, db)
  finalize decision db = settle_attempt ctx db (apply decision db)
