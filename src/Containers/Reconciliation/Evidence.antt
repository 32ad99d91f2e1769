-- ===== src/Containers/Reconciliation/Evidence.antt =====
-- What a reconciliation (api/src/containers/reconciliation.service.ts) concludes, and from what.
use dockplane.Base.{ℕ, ◌≤◌, ◌≡◌, refl, true, false, Option, arith, string_eq, option_eq, length}
use dockplane.Containers.Recovery.{RecoveryInput, no_action, classify_recovery}
use dockplane.Containers.Store.{ContainerRow, Database}
use dockplane.Containers.Finalizer.{finalize}
use dockplane.Containers.Reconciliation.{
  PendingOperation, row_of, claims_of, is_disputed, classify, reconcile_and_finalize,
}

claims-at_most_one : (o : Option ContainerRow) → length (claims_of o) ≤ 1
unfolding claims_of
claims-at_most_one o = ground arith

incomplete-no_action :
    (i : RecoveryInput)
    → i.recovery_eligible ≡ true
    → i.identity_conflict ≡ false
    → length i.claims ≤ 1
    → i.snapshot_complete ≡ false
    → classify_recovery i ≡ no_action "the last discovery did not complete"
unfolding classify_recovery
incomplete-no_action i eligible agreed few partial = ground arith

classify-incomplete :
    (operation : PendingOperation) (db : Database)
    → is_disputed (row_of db operation.container_id) ≡ false
    → classify db operation false ≡ no_action "the last discovery did not complete"
unfolding classify
classify-incomplete operation db agreed =
    incomplete-no_action _ refl agreed (claims-at_most_one (row_of db operation.container_id)) refl

-- From a host that was not read completely nothing is concluded about a container of which no
-- conflict is recorded: the database is as the reading left it.
incomplete_unchanged :
    (operation : PendingOperation) (db : Database) (now : ℕ)
    → is_disputed (row_of db operation.container_id) ≡ false
    → (reconcile_and_finalize operation (false, db) now).1 ≡ db
unfolding reconcile_and_finalize finalize
incomplete_unchanged operation db now agreed = rw (classify-incomplete operation db agreed) refl
