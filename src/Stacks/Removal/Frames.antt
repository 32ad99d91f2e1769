-- ===== src/Stacks/Removal/Frames.antt =====
-- The ways a deletion goes: what holds at the end of each of them holds of the deletion.
use dockplane.Base.{
  String, true, false, ◌≡◌, refl, Option, none, some, Option-cases, Bool-cases, Result-cases, inl,
  inr, List, [], ◌∷◌, ◌++◌, ◌==◌, string_eq, option_eq, has, is_blank, Result, ok, err, AppError,
}
use dockplane.Stacks.Delete.{StackDeleteOutcome, classify_stack_delete}
use dockplane.Stacks.World.{StackRow, World, Reply, answered, broken, refused, DeployedService}
use dockplane.Stacks.Removal.{Given, StackDeleteResult}
use dockplane.Stacks.Removal.Checks.{
  volumes_of, observed_claims, connected_agent, deployed_services, assert_nothing_left,
  has_unresolved_operation,
}
use dockplane.Stacks.Removal.Running.{
  Attempt, purge, record_audit, delete_never_deployed, prepare, deletion_interrupted,
  settle_deletion, resync, reconcile_deletion, after_reply, remove_then_finalize, attempt_of,
  deletion_started, started_elsewhere, delete_dispatched, delete_current, delete_locked,
  unknown_outcome,
}

-- The state that the reply of the agent meets.
abbrev pub sent : Attempt → World → World
sent attempt w = record w {
  requests =
      w.requests
      ++ record { agent_id = attempt.agent_id; capability = "stack.remove"; plan = attempt.plan }
        ∷ [];
}

-- What is concluded when the host was read.
abbrev pub concluded : Given → Attempt → World → StackDeleteOutcome
concluded g attempt w = classify_stack_delete (record {
  expected_services = attempt.expected_services;
  observed = observed_claims (resync g attempt.stack.host_id w).1 attempt.stack.id;
  snapshot_complete = (resync g attempt.stack.host_id w).0;
})

module _ (Q : Result StackDeleteResult × World → Type 0) (g : Given) (attempt : Attempt)
    (w : World) where
  abbrev pub WhenLost : Type 0
  WhenLost = (code : String) → Q (deletion_interrupted g attempt code (sent attempt w))

  abbrev pub WhenRead : Type 0
  WhenRead =
      (failure : Option AppError)
      → Q (
          settle_deletion g attempt (concluded g attempt (sent attempt w)) failure
            (resync g attempt.stack.host_id (sent attempt w)).1)

  by_reply :
      (reply : Reply) → WhenLost → WhenRead → Q (after_reply g attempt reply (sent attempt w))
  unfolding after_reply reconcile_deletion
  by_reply answered lost read = read none
  by_reply broken lost read = read none
  by_reply (refused e) lost read = elim (Bool-cases (has unknown_outcome e.code)) [
    | inl gone ↦ rw (after_reply, gone) (lost e.code)
    | inr told ↦ rw (after_reply, told) (read (some e))
  ]

  pub remove_then_finalize-by : WhenLost → WhenRead → Q (remove_then_finalize g attempt w)
  unfolding remove_then_finalize
  remove_then_finalize-by = by_reply g.reply

-- The state in which the request is sent.
abbrev pub requested : Given → StackRow → String → World → World
requested g stack revision_id w =
    record_audit g stack "stack.delete.requested" "success" (some g.operation_id)
      (deletion_started g stack revision_id w)

module _ (Q : Result StackDeleteResult × World → Type 0) (g : Given) (stack : StackRow)
    (w : World) where
  abbrev pub WhenRefused : Type 0
  WhenRefused = (e : AppError) → Q (err e, w)

  abbrev pub WhenNeverDeployed : Type 0
  WhenNeverDeployed =
      (volumes : List String)
      → is_blank stack.current_revision_id ≡ true
      → assert_nothing_left w stack ≡ ok tt
      → Q (
        ok (record { stack_id = stack.id; retained_volumes = volumes }),
        record_audit g stack "stack.deleted" "success" none (purge stack.id w),
      )

  abbrev pub WhenSent : Type 0
  WhenSent =
      (revision : String) (volumes : List String) (agent : String) (services : List DeployedService)
      → stack.current_revision_id ≡ some revision
      → is_blank (some revision) ≡ false
      → connected_agent w stack.host_id ≡ ok agent
      → deployed_services w stack.id revision ≡ ok services
      → Q (
          remove_then_finalize g (attempt_of stack revision volumes agent services)
            (requested g stack revision w))

  never-by :
      (volumes : List String)
      → is_blank stack.current_revision_id ≡ true
      → WhenRefused
      → WhenNeverDeployed
      → Q (delete_never_deployed g stack volumes w)
  unfolding delete_never_deployed
  never-by volumes blank refusal never = elim (Result-cases (assert_nothing_left w stack)) [
    | inl (done, e) ↦ rw (delete_never_deployed, e) (never volumes blank e)
    | inr (error, e) ↦ rw (delete_never_deployed, e) (refusal error)
  ]

  dispatched-by :
      (revision : String) (volumes : List String) (agent : String) (services : List DeployedService)
      → WhenRefused
      → Q (
          remove_then_finalize g
            (attempt_of stack revision volumes agent services)
            (requested g stack revision w))
      → Q (delete_dispatched g stack revision volumes agent services w)
  unfolding delete_dispatched prepare
  dispatched-by revision volumes agent services refusal send =
      elim (Bool-cases (has_unresolved_operation w stack.id)) [
        | inl busy ↦
            let stopped : prepare g stack revision w ≡ err started_elsewhere =
              rw (prepare, busy) refl in
            rw (delete_dispatched, stopped) (refusal started_elsewhere)
        | inr free ↦
            let prepared : prepare g stack revision w ≡ ok (deletion_started g stack revision w) =
              rw (prepare, free) refl in
            rw (delete_dispatched, prepared) send
      ]

  current-by :
      (revision : String)
      → stack.current_revision_id ≡ some revision
      → is_blank (some revision) ≡ false
      → WhenRefused
      → WhenSent
      → Q (delete_current g stack revision w)
  unfolding delete_current
  current-by revision deployed named refusal send =
      elim (Result-cases (connected_agent w stack.host_id)) [
        | inr (e, off) ↦ rw (delete_current, off) (refusal e)
        | inl (agent, on) ↦ elim (Result-cases (deployed_services w stack.id revision)) [
          | inr (e, missing) ↦ rw (delete_current, on, missing) (refusal e)
          | inl (services, found) ↦
              rw (delete_current, on, found)
                (dispatched-by revision (volumes_of w stack) agent services refusal
                  (send revision (volumes_of w stack) agent services deployed named on found))
        ]
      ]

  pub delete_locked-by : WhenRefused → WhenNeverDeployed → WhenSent → Q (delete_locked g stack w)
  unfolding delete_locked
  delete_locked-by refusal never send = elim (Option-cases stack.current_revision_id) [
    | inl none_deployed ↦
        rw (delete_locked, none_deployed)
          (never-by (volumes_of w stack) (rw none_deployed refl) refusal never)
    | inr (revision, deployed) ↦ elim (Bool-cases (revision == "")) [
      | inl blank ↦
          rw (delete_locked, deployed, blank)
            (never-by (volumes_of w stack) (rw (deployed, blank) refl) refusal never)
      | inr named ↦
          rw (delete_locked, deployed, named) (current-by revision deployed named refusal send)
    ]
  ]
