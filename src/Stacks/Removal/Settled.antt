-- ===== src/Stacks/Removal/Settled.antt =====
-- A deletion that was dispatched never leaves its operation running.
use dockplane.Base.{
  ℕ, String, Bool, ◌≡◌, ◌≢◌, refl, sym, subst, Option, Option-cases, Result-cases, inl, inr, List,
  [], ◌∷◌, ◌++◌, ◌==◌, ==_iff, string_eq, option_eq, update_where, delete_where, Result, ok, err,
  AppError, arith, All, All-map, ◌<>◌,
}
use dockplane.Operations.Registry.{MutationRegistry, acquire}
use dockplane.Stacks.Delete.{
  StackDeleteOutcome, finalize_deleted, finalize_not_applied, needs_attention, unknown,
}
use dockplane.Stacks.World.{StackRow, World, OperationRow}
use dockplane.Stacks.Removal.{Given, StackDeleteResult}
use dockplane.Stacks.Removal.Checks.{deletable, agent_of}
use dockplane.Stacks.Removal.Running.{
  Attempt, purge, record_audit, deletion_interrupted, deletion_started, attempt_of,
  record_not_applied, record_needs_attention, finish_deleted, settle_deletion, resync,
  remove_then_finalize, delete_locked, delete_holding, delete,
}
use dockplane.Stacks.Removal.Frames.{sent, requested, remove_then_finalize-by, delete_locked-by}

-- The operation of this deletion, if it is there, is not running.
abbrev pub Settled : Given → List OperationRow → Type 0
Settled g operations = All (λ o. o.id ≡ g.operation_id → o.status ≢ "running") operations

-- Every row with the operation's id is of the stack.
abbrev Own : Given → String → List OperationRow → Type 0
Own g stack_id operations = All (λ o. o.id ≡ g.operation_id → o.stack_id ≡ stack_id) operations

pub Settled-update :
    (g : Given) (f : OperationRow → OperationRow) (operations : List OperationRow)
    → ((o : OperationRow) → (f o).status ≢ "running")
    → Settled g (update_where (λ o. o.id == g.operation_id) f operations)
Settled-update g f [] h = tt
Settled-update g f (o ∷ operations) h =
    ground (arith, h o, ==_iff o.id g.operation_id, Settled-update g f operations h)

Settled-purge :
    (g : Given) (stack_id : String) (operations : List OperationRow)
    → Own g stack_id operations
    → Settled g (delete_where (λ o. o.stack_id == stack_id) operations)
Settled-purge g stack_id [] h = tt
Settled-purge g stack_id (o ∷ operations) (own, h) =
    ground (arith, own, ==_iff o.stack_id stack_id, Settled-purge g stack_id operations h)

Own-started :
    (g : Given) (stack_id : String) (operations : List OperationRow) (o : OperationRow)
    → All (λ o. o.id ≢ g.operation_id) operations
    → o.stack_id ≡ stack_id
    → Own g stack_id (operations ++ o ∷ [])
Own-started g stack_id [] o fresh e = (λ _. e, tt)
Own-started g stack_id (p ∷ operations) o (new, fresh) e =
    (λ same. absurd (new same), Own-started g stack_id operations o fresh e)

pub Settled-fresh :
    (g : Given) (operations : List OperationRow)
    → All (λ o. o.id ≢ g.operation_id) operations
    → Settled g operations
Settled-fresh g operations = All-map (λ o new same. absurd (new same)) operations

Settled-delete_where :
    (g : Given) (p : OperationRow → Bool) (operations : List OperationRow)
    → Settled g operations
    → Settled g (delete_where p operations)
Settled-delete_where g p [] h = tt
Settled-delete_where g p (o ∷ operations) (x, h) =
    ground (arith, x, Settled-delete_where g p operations h)

pub resync-operations :
    (g : Given) (host : String) (w : World) → (resync g host w).1.operations ≡ w.operations
unfolding resync
resync-operations g host w = elim (Option-cases (agent_of w host)) [
  | inl missing ↦ rw (resync, missing) refl
  | inr (agent, found) ↦ rw (resync, found) refl
]

settle-Settled :
    (g : Given) (attempt : Attempt) (outcome : StackDeleteOutcome) (failure : Option AppError)
    (w : World)
    → Own g attempt.stack.id w.operations
    → Settled g (settle_deletion g attempt outcome failure w).1.operations
unfolding settle_deletion deletion_interrupted record_needs_attention record_not_applied
    finish_deleted
settle-Settled g attempt (unknown reason) failure w own =
    Settled-update g _ w.operations λ o. ground (arith, ==_iff {A = String} "interrupted" "running")
settle-Settled g attempt finalize_deleted failure w own =
    Settled-purge g attempt.stack.id w.operations own
settle-Settled g attempt (needs_attention reason) failure w own =
    Settled-update g _ w.operations
      λ o. ground (arith, ==_iff {A = String} "needs_attention" "running")
settle-Settled g attempt finalize_not_applied failure w own =
    Settled-update g _ w.operations λ o. ground (arith, ==_iff {A = String} "failed" "running")

abbrev Closes : Given → Result StackDeleteResult × World → Type 0
Closes g r = Settled g r.1.operations

remove_then_finalize-Closes :
    (g : Given) (attempt : Attempt) (w : World)
    → Own g attempt.stack.id w.operations
    → Closes g (remove_then_finalize g attempt w)
remove_then_finalize-Closes g attempt w own =
    remove_then_finalize-by (Closes g) g attempt w
      (λ code.
        unfold deletion_interrupted in
        Settled-update g _ w.operations
          λ o. ground (arith, ==_iff {A = String} "interrupted" "running"))
      λ failure. settle-Settled g attempt _ failure _ (
        subst (Own g attempt.stack.id)
          (sym (resync-operations g attempt.stack.host_id (sent attempt w))) own)

delete_locked-Closes :
    (g : Given) (stack : StackRow) (w : World)
    → All (λ o. o.id ≢ g.operation_id) w.operations
    → Closes g (delete_locked g stack w)
delete_locked-Closes g stack w fresh =
    delete_locked-by (Closes g) g stack w (λ e. Settled-fresh g w.operations fresh)
      (λ volumes blank clean.
        unfold record_audit in
        unfold purge in Settled-delete_where g _ w.operations (Settled-fresh g w.operations fresh))
      λ revision volumes agent services _ _ _ _.
        unfold record_audit in
        unfold deletion_started in
        unfold attempt_of in
        remove_then_finalize-Closes g (attempt_of stack revision volumes agent services)
          (requested g stack revision w) (Own-started g stack.id w.operations _ fresh refl)

holding-Closes :
    (g : Given) (stack : StackRow) (w : World) (lock : Result ℕ × MutationRegistry)
    → All (λ o. o.id ≢ g.operation_id) w.operations
    → Closes g (delete_holding g stack w lock)
unfolding delete_holding
holding-Closes g stack w (err f, registry) fresh = Settled-fresh g w.operations fresh
holding-Closes g stack w (ok ticket, registry) fresh =
    delete_locked-Closes g stack (record w { registry = registry }) fresh

-- As long as the database takes every statement, and whatever a deletion then comes to, the operation
-- that it inserts under a new id is not running when it returns.
pub delete-Settled :
    (g : Given) (stack_id : String) (w : World)
    → All (λ o. o.id ≢ g.operation_id) w.operations
    → Settled g (delete g stack_id w).1.operations
unfolding delete
delete-Settled g stack_id w fresh = elim (Result-cases (deletable w stack_id)) [
  | inr (f, refusal) ↦ rw (delete, refusal) (Settled-fresh g w.operations fresh)
  | inl (stack, found) ↦
      let lock = acquire ("stack:" <> stack_id) "delete" w.registry in
      rw (delete, found) (holding-Closes g stack w lock fresh)
]
