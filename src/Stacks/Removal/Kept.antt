-- ===== src/Stacks/Removal/Kept.antt =====
-- A deletion that fails keeps the stack and what belongs to it.
use dockplane.Base.{
  ℕ, String, Bool, ◌≡◌, ◌⊎◌, refl, ◌∙◌, Option, Option-cases, Result-cases, inl, inr, List, [], ◌∷◌,
  map, ◌==◌, string_eq, option_eq, update_where, Result, ok, err, AppError, arith, ◌<>◌,
}
use dockplane.Operations.Registry.{MutationRegistry, acquire}
use dockplane.Stacks.Delete.{
  StackDeleteOutcome, finalize_deleted, finalize_not_applied, needs_attention, unknown,
}
use dockplane.Stacks.World.{AgentRequest, StackRow, World}
use dockplane.Stacks.Removal.{Given, StackDeleteResult}
use dockplane.Stacks.Removal.Checks.{deletable, agent_of}
use dockplane.Stacks.Removal.Running.{
  Attempt, record_audit, deletion_interrupted, deletion_started, attempt_of, record_not_applied,
  record_needs_attention, settle_deletion, resync, remove_then_finalize, delete_locked,
  delete_holding, delete,
}
use dockplane.Stacks.Removal.Frames.{sent, requested, remove_then_finalize-by, delete_locked-by}

-- The stacks, revisions and deployments are those that were there, and the containers are those
-- that were there or those that reading the host gave.
abbrev pub Keeps : Given → World → World → Type 0
Keeps g w after =
    (map (λ s. s.id) after.stacks ≡ map (λ s. s.id) w.stacks)
    × (after.revisions ≡ w.revisions)
    × (after.deployments ≡ w.deployments)
    × ((after.containers ≡ w.containers)
        ⊎ ((requests : List AgentRequest) × (after.containers ≡ (g.sync requests w.containers).0)))

ids-update_where :
    (p : StackRow → Bool) (status : String) (stacks : List StackRow)
    → map (λ s. s.id) (update_where p (λ s. record s { status = status }) stacks)
      ≡ map (λ s. s.id) stacks
ids-update_where p status [] = refl
ids-update_where p status (s ∷ stacks) = ground (arith, ids-update_where p status stacks)

resync-Keeps : (g : Given) (host : String) (w : World) → Keeps g w (resync g host w).1
unfolding resync
resync-Keeps g host w = elim (Option-cases (agent_of w host)) [
  | inl missing ↦ rw (resync, missing) (refl, refl, refl, inl refl)
  | inr (agent, found) ↦ rw (resync, found) (refl, refl, refl, inr (w.requests, refl))
]

abbrev ErrKeeps : Given → World → AppError → Result StackDeleteResult × World → Type 0
ErrKeeps g w e r = r.0 ≡ err e → Keeps g w r.1

settle-ErrKeeps :
    (g : Given) (attempt : Attempt) (outcome : StackDeleteOutcome) (failure : Option AppError)
    (w read : World) (e : AppError)
    → Keeps g w read
    → ErrKeeps g w e (settle_deletion g attempt outcome failure read)
unfolding settle_deletion deletion_interrupted record_needs_attention record_not_applied
settle-ErrKeeps g attempt (unknown reason) failure w read e k h = k
settle-ErrKeeps g attempt finalize_deleted failure w read e k h = absurd (ground (arith, h))
settle-ErrKeeps g attempt (needs_attention reason) failure w read e
      (ids, revisions, deployments, containers) h =
    (
      ids-update_where (λ s. s.id == attempt.stack.id) "needs_attention" read.stacks ∙ ids,
      revisions,
      deployments,
      containers,
    )
settle-ErrKeeps g attempt finalize_not_applied failure w read e k h = k

remove_then_finalize-ErrKeeps :
    (g : Given) (attempt : Attempt) (w : World) (e : AppError)
    → ErrKeeps g w e (remove_then_finalize g attempt w)
remove_then_finalize-ErrKeeps g attempt w e =
    remove_then_finalize-by (ErrKeeps g w e) g attempt w
      (λ code h. unfold deletion_interrupted in (refl, refl, refl, inl refl))
      λ failure.
        settle-ErrKeeps g attempt _ failure w _ e
          (resync-Keeps g attempt.stack.host_id (sent attempt w))

delete_locked-ErrKeeps :
    (g : Given) (stack : StackRow) (w : World) (e : AppError)
    → ErrKeeps g w e (delete_locked g stack w)
delete_locked-ErrKeeps g stack w e =
    delete_locked-by (ErrKeeps g w e) g stack w (λ f h. (refl, refl, refl, inl refl))
      (λ volumes blank clean h. absurd (ground (arith, h)))
      λ revision volumes agent services _ _ _ _ h.
        unfold record_audit in
        unfold deletion_started in
        remove_then_finalize-ErrKeeps g (attempt_of stack revision volumes agent services)
          (requested g stack revision w) e h

holding-ErrKeeps :
    (g : Given) (stack : StackRow) (w : World) (e : AppError) (lock : Result ℕ × MutationRegistry)
    → ErrKeeps g w e (delete_holding g stack w lock)
unfolding delete_holding
holding-ErrKeeps g stack w e (err f, registry) h = (refl, refl, refl, inl refl)
holding-ErrKeeps g stack w e (ok ticket, registry) h =
    delete_locked-ErrKeeps g stack (record w { registry = registry }) e h

-- As long as the database takes every statement, a deletion that fails deletes nothing: the same stacks, revisions and deployments are there
-- afterwards, and the containers are as they were or as reading the host left them.
pub delete_err-Keeps :
    (g : Given) (stack_id : String) (w : World) (e : AppError)
    → (delete g stack_id w).0 ≡ err e
    → Keeps g w (delete g stack_id w).1
unfolding delete
delete_err-Keeps g stack_id w e h = elim (Result-cases (deletable w stack_id)) [
  | inr (f, refusal) ↦ rw (delete, refusal) (refl, refl, refl, inl refl)
  | inl (stack, found) ↦
      let lock = acquire ("stack:" <> stack_id) "delete" w.registry in
      rw (delete, found) (holding-ErrKeeps g stack w e lock (rw (delete, found) at h))
]
