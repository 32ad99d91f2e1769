-- ===== src/Stacks/Removal/Locks.antt =====
-- The lock that a deletion runs under is given back, whatever way it goes.
use dockplane.Base.{
  String, ◌≡◌, ◌≢◌, refl, ap, ◌∙◌, Option, some, Option-cases, Result-cases, inl, inr, string_eq,
  option_eq, AppError, arith, get, ◌<>◌,
}
use dockplane.Operations.Registry.{release}
use dockplane.Operations.Registry.Balanced.{acquire-cases}
use dockplane.Stacks.Delete.{
  StackDeleteOutcome, finalize_deleted, finalize_not_applied, needs_attention, unknown,
}
use dockplane.Stacks.World.{StackRow, World}
use dockplane.Stacks.Removal.{Given}
use dockplane.Stacks.Removal.Checks.{deletable, agent_of}
use dockplane.Stacks.Removal.Running.{
  Attempt, purge, record_audit, deletion_interrupted, deletion_started, attempt_of,
  record_not_applied, record_needs_attention, finish_deleted, settle_deletion, resync,
  remove_then_finalize, delete_locked, delete_holding, delete,
}
use dockplane.Stacks.Removal.Frames.{
  sent, concluded, requested, remove_then_finalize-by, delete_locked-by,
}

pub resync-registry :
    (g : Given) (host : String) (w : World) → (resync g host w).1.registry ≡ w.registry
unfolding resync
resync-registry g host w = elim (Option-cases (agent_of w host)) [
  | inl missing ↦ ground (arith, missing)
  | inr (agent, found) ↦ ground (arith, found)
]

settle_deletion-registry :
    (g : Given) (attempt : Attempt) (outcome : StackDeleteOutcome) (failure : Option AppError)
    (w : World)
    → (settle_deletion g attempt outcome failure w).1.registry ≡ w.registry
unfolding settle_deletion deletion_interrupted finish_deleted record_needs_attention
    record_not_applied
settle_deletion-registry g attempt (unknown reason) failure w = refl
settle_deletion-registry g attempt finalize_deleted failure w = refl
settle_deletion-registry g attempt (needs_attention reason) failure w = refl
settle_deletion-registry g attempt finalize_not_applied failure w = refl

remove_then_finalize-registry :
    (g : Given) (attempt : Attempt) (w : World)
    → (remove_then_finalize g attempt w).1.registry ≡ w.registry
remove_then_finalize-registry g attempt w =
    remove_then_finalize-by (λ r. r.1.registry ≡ w.registry) g attempt w
      (λ code. unfold deletion_interrupted in refl)
      λ failure.
        settle_deletion-registry g attempt (concluded g attempt (sent attempt w)) failure
          (resync g attempt.stack.host_id (sent attempt w)).1
        ∙ resync-registry g attempt.stack.host_id (sent attempt w)

delete_locked-registry :
    (g : Given) (stack : StackRow) (w : World) → (delete_locked g stack w).1.registry ≡ w.registry
delete_locked-registry g stack w =
    delete_locked-by (λ r. r.1.registry ≡ w.registry) g stack w (λ e. refl)
      (λ volumes blank h. unfold record_audit in unfold purge in refl)
      λ revision volumes agent services _ _ _ _.
        remove_then_finalize-registry g (attempt_of stack revision volumes agent services)
          (requested g stack revision w)
        ∙ (unfold record_audit in unfold deletion_started in refl)

-- Whatever a deletion comes to, every lock is held afterwards exactly as it was before, when the
-- stack's lock is not held under the empty name.
pub delete_unlocks :
    (g : Given) (stack_id : String) (w : World) (k : String)
    → get w.registry.held ("stack:" <> stack_id) ≢ some ""
    → get (delete g stack_id w).1.registry.held k ≡ get w.registry.held k
unfolding delete delete_holding get
delete_unlocks g stack_id w k named = elim (Result-cases (deletable w stack_id)) [
  | inr (e, refusal) ↦ rw (delete, refusal) refl
  | inl (stack, found) ↦ elim (acquire-cases w.registry ("stack:" <> stack_id) "delete" named) [
    | inl (e, taken) ↦ rw (delete, found, taken) refl
    | inr (n, r, taken, back) ↦
        let kept = delete_locked-registry g stack (record w { registry = r }) in
        rw (delete, found, taken) (ap (λ s. get (release n s).held k) kept ∙ back k)
  ]
]
