-- ===== src/Stacks/Removal/Requests.antt =====
-- What a deletion asks of an agent.
use dockplane.Base.{
  ℕ, String, false, ◌≡◌, ◌≢◌, sym, ap, arith, ==_iff, is_blank, ◌⊎◌, refl, ◌∙◌, Option, some,
  Option-cases, inl, inr, List, [], ◌∷◌, ◌++◌, string_eq, option_eq, Result, ok, err, AppError,
  ◌<>◌,
}
use dockplane.Operations.Registry.{MutationRegistry, acquire}
use dockplane.Stacks.Delete.{
  StackDeleteOutcome, finalize_deleted, finalize_not_applied, needs_attention, unknown,
}
use dockplane.Stacks.World.{StackRow, AgentRow, AgentRequest, World, DeployedService}
use dockplane.Stacks.Removal.Targets.{
  IsReachable, Described, connected_agent-IsReachable, deployed_services-Described,
}
use dockplane.Stacks.Removal.{Given}
use dockplane.Stacks.Removal.Checks.{
  deletable, connected_agent, deployed_services, revision_of, agent_of,
}
use dockplane.Stacks.Removal.Running.{
  Attempt, purge, record_audit, deletion_interrupted, deletion_started, attempt_of,
  record_not_applied, record_needs_attention, finish_deleted, settle_deletion, resync,
  remove_then_finalize, delete_locked, delete_holding, delete,
}
use dockplane.Stacks.Removal.Frames.{
  sent, concluded, requested, remove_then_finalize-by, delete_locked-by,
}

-- The removal of these services by this agent.
abbrev pub removal : StackRow → String → String → List DeployedService → AgentRequest
removal stack revision agent_id services = record {
  agent_id = agent_id;
  capability = "stack.remove";
  plan = record { stack_id = stack.id; revision_id = revision; services = services };
}

-- One removal is asked of an agent of the stack's host that may be reached: the removal of the
-- services that the deployed revision describes, each with its container.
abbrev pub AsksRemoval : StackRow → World → World → Type 0
AsksRemoval stack w after =
    (revision : String) × (agent : AgentRow) × (services : List DeployedService)
    × (stack.current_revision_id ≡ some revision)
    × (revision ≢ "")
    × IsReachable w stack.host_id agent
    × Described w stack.id revision services
    × (after.requests ≡ w.requests ++ removal stack revision agent.id services ∷ [])

abbrev pub Asks : StackRow → World → World → Type 0
Asks stack w after = (after.requests ≡ w.requests) ⊎ AsksRemoval stack w after

resync-requests :
    (g : Given) (host : String) (w : World) → (resync g host w).1.requests ≡ w.requests
unfolding resync
resync-requests g host w = elim (Option-cases (agent_of w host)) [
  | inl missing ↦ rw (resync, missing) refl
  | inr (agent, found) ↦ rw (resync, found) refl
]

settle_deletion-requests :
    (g : Given) (attempt : Attempt) (outcome : StackDeleteOutcome) (failure : Option AppError)
    (w : World)
    → (settle_deletion g attempt outcome failure w).1.requests ≡ w.requests
unfolding settle_deletion deletion_interrupted finish_deleted record_needs_attention
    record_not_applied
settle_deletion-requests g attempt (unknown reason) failure w = refl
settle_deletion-requests g attempt finalize_deleted failure w = refl
settle_deletion-requests g attempt (needs_attention reason) failure w = refl
settle_deletion-requests g attempt finalize_not_applied failure w = refl

pub remove_then_finalize-requests :
    (g : Given) (attempt : Attempt) (w : World)
    → (remove_then_finalize g attempt w).1.requests
      ≡ w.requests
        ++ record { agent_id = attempt.agent_id; capability = "stack.remove"; plan = attempt.plan }
          ∷ []
remove_then_finalize-requests g attempt w =
    remove_then_finalize-by
      (λ r.
        r.1.requests
        ≡ w.requests
          ++ record {
            agent_id = attempt.agent_id;
            capability = "stack.remove";
            plan = attempt.plan;
          }
            ∷ [])
      g attempt w (λ code. unfold deletion_interrupted in refl)
      λ failure.
        settle_deletion-requests g attempt (concluded g attempt (sent attempt w)) failure
          (resync g attempt.stack.host_id (sent attempt w)).1
        ∙ resync-requests g attempt.stack.host_id (sent attempt w)

named : (revision : String) → is_blank (some revision) ≡ false → revision ≢ ""
named revision h e = ground (arith, ==_iff revision "", h, e)

-- What is sent, when the removal is asked.
pub sent-AsksRemoval :
    (stack : StackRow) (w after : World) (revision agent_id : String)
    (services : List DeployedService)
    → stack.current_revision_id ≡ some revision
    → is_blank (some revision) ≡ false
    → connected_agent w stack.host_id ≡ ok agent_id
    → deployed_services w stack.id revision ≡ ok services
    → after.requests ≡ w.requests ++ removal stack revision agent_id services ∷ []
    → AsksRemoval stack w after
sent-AsksRemoval stack w after revision agent_id services current known on found e =
    let (agent, same, reachable) = connected_agent-IsReachable w stack.host_id agent_id on in
    (
      revision,
      agent,
      services,
      current,
      named revision known,
      reachable,
      deployed_services-Described w stack.id revision services found,
      e ∙ ap (λ id. w.requests ++ removal stack revision id services ∷ []) (sym same),
    )

delete_locked-Asks :
    (g : Given) (stack : StackRow) (w : World) → Asks stack w (delete_locked g stack w).1
delete_locked-Asks g stack w =
    delete_locked-by (λ r. Asks stack w r.1) g stack w (λ e. inl refl)
      (λ volumes blank clean. unfold record_audit in unfold purge in inl refl)
      λ revision volumes agent services current known on found. inr (
        sent-AsksRemoval stack w
          (remove_then_finalize g (attempt_of stack revision volumes agent services)
            (requested g stack revision w)).1
          revision agent services current known on found
          (unfold record_audit in
            unfold deletion_started in
            unfold attempt_of in
            remove_then_finalize-requests g (attempt_of stack revision volumes agent services)
              (requested g stack revision w)))

holding-Asks :
    (g : Given) (stack : StackRow) (w : World) (lock : Result ℕ × MutationRegistry)
    → Asks stack w (delete_holding g stack w lock).1
unfolding delete_holding revision_of
holding-Asks g stack w (err f, registry) = inl refl
holding-Asks g stack w (ok ticket, registry) =
    delete_locked-Asks g stack (record w { registry = registry })

-- A deletion of a stack that passes its guards asks nothing of an agent, or asks once a connected
-- agent of the stack's host, which is not revoked and of a version that names stacks, to remove the
-- services of the deployed revision, all of them and each with a container of the stack that is on
-- the host; where the revision has no summary these are none.
pub delete-Asks :
    (g : Given) (stack_id : String) (w : World) (stack : StackRow)
    → deletable w stack_id ≡ ok stack
    → Asks stack w (delete g stack_id w).1
unfolding delete
delete-Asks g stack_id w stack found =
    rw (delete, found) (holding-Asks g stack w (acquire ("stack:" <> stack_id) "delete" w.registry))
