-- ===== src/Containers/Reconciliation.antt =====
-- api/src/containers/reconciliation.service.ts: settling an operation against what its host shows.
-- Reading the host (`resync`) is discovery's: whether the answer was complete, and the database
-- after it, are given. Logging is left out.
pub mod Evidence
mod Tests
use dockplane.Base.{
  ℕ, String, Bool, true, false, ◌&&◌, Option, none, some, List, [], ◌∷◌, map, ◌==◌, string_eq,
  if◌then◌else◌, find, is_some, is_blank, filter,
}
use dockplane.Containers.Recovery.{
  RecoveryOperation, RecoveryDecision, ObservedClaim, RecoveryInput, classify_recovery,
}
use dockplane.Containers.Store.{ContainerRow, ConfigRow, Database, is_current, is_pending}
use dockplane.Containers.Finalizer.{RecoveryContext, finalize}

pub record PendingOperation : Type 0 where
  pub container_id : String
  pub container_name : String
  pub host_id : String
  pub operation : RecoveryOperation
  pub action_id : Option String

abbrev pub row_of : Database → String → Option ContainerRow
row_of db container = find (λ c. c.id == container) db.containers

pub claims_of : Option ContainerRow → List ObservedClaim
claims_of none = []
claims_of (some row) = elim row.docker_id [
  | none ↦ []
  | some docker ↦
      if is_blank (some docker)
      then []
      else record { docker_id = docker; desired_config_id = row.observed_desired_config_id } ∷ []
]

pub id_of : Option ConfigRow → Option String
id_of none = none
id_of (some row) = some row.id

-- Whether a conflict is recorded of the container.
pub is_disputed : Option ContainerRow → Bool
is_disputed none = false
is_disputed (some row) = is_some row.identity_conflict

pub classify : Database → PendingOperation → Bool → RecoveryDecision
classify db operation complete = classify_recovery (record {
  operation = operation.operation;
  current_desired_config_id = id_of (find (λ r. is_current r.state) configs);
  pending_desired_config_id = id_of (find (λ r. is_pending r.state) configs);
  claims = claims_of (row_of db operation.container_id);
  snapshot_complete = complete;
  recovery_eligible = true;
  identity_conflict = is_disputed (row_of db operation.container_id);
})
  where
    configs : List ConfigRow
    configs = filter (λ r. r.container_id == operation.container_id) db.configs

pub claimed_docker_ids : Option ContainerRow → List String
claimed_docker_ids none = []
claimed_docker_ids (some row) = elim row.identity_conflict [
  | some ids ↦ ids
  | none ↦ elim row.docker_id [
    | none ↦ []
    | some docker ↦ if is_blank (some docker) then [] else docker ∷ []
  ]
]

pub context_of : Database → PendingOperation → RecoveryContext
context_of db operation = record {
  container_id = operation.container_id;
  container_name = operation.container_name;
  host_id = operation.host_id;
  operation = operation.operation;
  action_id = operation.action_id;
  observed_docker_ids = claimed_docker_ids (row_of db operation.container_id);
}

-- The decision that was reached, and the database after it. `no_action` is left to `finalize`,
-- which answers it without a change.
pub reconcile_and_finalize : PendingOperation → Bool × Database → ℕ → RecoveryDecision × Database
reconcile_and_finalize operation synced now =
    let decision = classify synced.1 operation synced.0 in
    (decision, (finalize (context_of synced.1 operation) now decision synced.1).1)
