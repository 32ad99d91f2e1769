-- ===== src/Stacks/Operation/Blocked.antt =====
-- An operation whose outcome is not known blocks its stack.
use dockplane.Base.{
  ℕ, String, Bool, true, false, ◌≡◌, ◌≢◌, refl, sym, ap, subst, ◌∙◌, some, Option-cases,
  Result-cases, inl, inr, List, [], ◌∷◌, ◌++◌, ◌==◌, ==_iff, string_eq, any, has, ◌&&◌, find,
  find-some, update_where, Result, ok, err, AppError, arith, ◌<>◌,
}
use dockplane.Operations.Registry.{MutationRegistry, acquire}
use dockplane.Stacks.Lifecycle.{StackLifecycleKind}
use dockplane.Stacks.World.{StackRow, HostRow, World, OperationRow, refused}
use dockplane.Stacks.Removal.{Given}
use dockplane.Stacks.Removal.Checks.{
  has_unresolved_operation, deletable, assert_deletable, assert_not_archived, unresolved,
}
use dockplane.Stacks.Removal.Running.{record_audit, unknown_outcome, delete}
use dockplane.Stacks.Operation.{
  OperationGiven, DispatchedOperation, StackOperationOutcome, kind_name,
}
use dockplane.Stacks.Operation.Checks.{
  operable, reachable_agent, assert_stack_operable, assert_nothing_unresolved,
}
use dockplane.Stacks.Operation.Running.{
  operation_started, operation_interrupted, after_operation_reply, dispatch_and_settle,
  dispatched_operation, run_locked, run_holding, run,
}
use dockplane.Stacks.Operation.Frames.{asked as sent_on, prepared_operation, run_locked-by}

-- An operation that is interrupted is among the unresolved of its stack.
abbrev pub Blocks : String → World → Type 0
Blocks stack_id w = has_unresolved_operation w stack_id ≡ true

any-last :
    {A : Type 0} (p : A → Bool) (xs : List A) (x : A) → p x ≡ true → any p (xs ++ x ∷ []) ≡ true
any-last p [] x h = ground (arith, h)
any-last p (y ∷ xs) x h = ground (arith, any-last p xs x h)

update-last :
    (p : OperationRow → Bool) (f : OperationRow → OperationRow) (xs : List OperationRow)
    (x : OperationRow)
    → p x ≡ true
    → update_where p f (xs ++ x ∷ []) ≡ update_where p f xs ++ f x ∷ []
update-last p f [] x h = ground (arith, h)
update-last p f (y ∷ xs) x h = ground (arith, update-last p f xs x h)

-- The rows to which an operation was added, with its id and its stack.
abbrev Added : Given → String → List OperationRow → Type 0
Added g stack_id operations =
    (before : List OperationRow) × (o : OperationRow) × (operations ≡ before ++ o ∷ [])
    × (o.id ≡ g.operation_id)
    × (o.stack_id ≡ stack_id)

Blocks-interrupted :
    (g : Given) (attempt : DispatchedOperation) (code : String) (w : World)
    → Added g attempt.stack.id w.operations
    → Blocks attempt.stack.id (operation_interrupted g attempt code w).1
unfolding has_unresolved_operation operation_interrupted
Blocks-interrupted g attempt code w (before, o, e, named, owned) =
    let f : OperationRow → OperationRow =
      λ o. record o { status = "interrupted"; failure_code = some code } in
    let p : OperationRow → Bool = λ o. o.id == g.operation_id in
    let found : p o ≡ true = (==_iff o.id g.operation_id).1 named in
    let rows : update_where p f w.operations ≡ update_where p f before ++ f o ∷ [] =
      ap (update_where p f) e ∙ update-last p f before o found in
    let q : OperationRow → Bool = λ o. o.stack_id == attempt.stack.id && has unresolved o.status in
    let hit : q (f o) ≡ true =
      unfold has in ground (arith, owned, ==_iff o.stack_id attempt.stack.id) in
    ap (any q) rows ∙ any-last q (update_where p f before) (f o) hit

unresolved_free :
    (w : World) (stack : StackRow) (host : HostRow) (done : Unit {0})
    → assert_stack_operable w stack host ≡ ok done
    → has_unresolved_operation w stack.id ≡ false
unfolding assert_stack_operable assert_nothing_unresolved assert_not_archived
unresolved_free w stack host done h = ground (arith, h)

deletion_free :
    (w : World) (stack : StackRow) (host : HostRow) (done : Unit {0})
    → assert_deletable w stack host ≡ ok done
    → has_unresolved_operation w stack.id ≡ false
unfolding assert_deletable assert_not_archived
deletion_free w stack host done h = ground (arith, h)

operable-facts :
    (w : World) (stack_id : String) (stack : StackRow)
    → operable w stack_id ≡ ok stack
    → (stack.id ≡ stack_id) × (has_unresolved_operation w stack_id ≡ false)
unfolding operable
operable-facts w stack_id stack h = elim (Option-cases (find (λ s. s.id == stack_id) w.stacks)) [
  | inl missing ↦ absurd (ground (arith, rw (operable, missing) at h))
  | inr (found, e) ↦
      let named =
        (==_iff found.id stack_id).0 (find-some (λ s. s.id == stack_id) w.stacks found e) in
      elim (Option-cases (find (λ h. h.id == found.host_id) w.hosts)) [
        | inl no_host ↦ absurd (ground (arith, rw (operable, e, no_host) at h))
        | inr (on, f) ↦ elim (Result-cases (assert_stack_operable w found on)) [
          | inl (done, allowed) ↦
              let same : found ≡ stack = ground (arith, rw (operable, e, f, allowed) at h) in
              let free : has_unresolved_operation w found.id ≡ false =
                unresolved_free w found on done allowed in
              (
                ap (λ s. s.id) (sym same) ∙ named,
                ap (has_unresolved_operation w) (sym named) ∙ free,
              )
          | inr (error, refusal) ↦ absurd (ground (arith, rw (operable, e, f, refusal) at h))
        ]
      ]
]

deletable-free :
    (w : World) (stack_id : String) (stack : StackRow)
    → deletable w stack_id ≡ ok stack
    → has_unresolved_operation w stack_id ≡ false
unfolding deletable
deletable-free w stack_id stack h = elim (Option-cases (find (λ s. s.id == stack_id) w.stacks)) [
  | inl missing ↦ absurd (ground (arith, rw (deletable, missing) at h))
  | inr (found, e) ↦
      let named =
        (==_iff found.id stack_id).0 (find-some (λ s. s.id == stack_id) w.stacks found e) in
      elim (Option-cases (find (λ h. h.id == found.host_id) w.hosts)) [
        | inl no_host ↦ absurd (ground (arith, rw (deletable, e, no_host) at h))
        | inr (on, f) ↦ elim (Result-cases (assert_deletable w found on)) [
          | inl (done, allowed) ↦
              ap (has_unresolved_operation w) (sym named) ∙ deletion_free w found on done allowed
          | inr (error, refusal) ↦ absurd (ground (arith, rw (deletable, e, f, refusal) at h))
        ]
      ]
]

-- A blocked stack is refused by every operation and by a deletion, which change nothing.
blocked_run :
    (started_after : String → String → Bool) (g : OperationGiven) (operation : StackLifecycleKind)
    (stack_id : String) (w : World)
    → Blocks stack_id w
    → (e : AppError) × (run started_after g operation stack_id w ≡ (err e, w))
unfolding run
blocked_run started_after g operation stack_id w b = elim (Result-cases (operable w stack_id)) [
  | inr (e, refusal) ↦ (e, rw (run, refusal) refl)
  | inl (stack, found) ↦ absurd (ground (arith, b, operable-facts w stack_id stack found))
]

blocked_delete :
    (g : Given) (stack_id : String) (w : World)
    → Blocks stack_id w
    → (e : AppError) × (delete g stack_id w ≡ (err e, w))
unfolding delete
blocked_delete g stack_id w b = elim (Result-cases (deletable w stack_id)) [
  | inr (e, refusal) ↦ (e, rw (delete, refusal) refl)
  | inl (stack, found) ↦ absurd (ground (arith, b, deletable-free w stack_id stack found))
]

module _ (started_after : String → String → Bool) (g : OperationGiven) (lost : AppError) where
  dispatch-lost :
      (attempt : DispatchedOperation) (w : World)
      → g.given.reply ≡ refused lost
      → has unknown_outcome lost.code ≡ true
      → dispatch_and_settle started_after g attempt w
        ≡ operation_interrupted g.given attempt lost.code (sent_on attempt w)
  unfolding dispatch_and_settle after_operation_reply
  dispatch-lost attempt w r u =
      ap (λ reply. after_operation_reply started_after g attempt reply (sent_on attempt w)) r
      ∙ rw (after_operation_reply, u) refl

  abbrev BlockedIfAsked : String → World → Result StackOperationOutcome × World → Type 0
  BlockedIfAsked stack_id w r = r.1.requests ≢ w.requests → Blocks stack_id r.1

  run_locked-Blocks :
      (operation : StackLifecycleKind) (stack : StackRow) (agent : String) (w : World)
      → g.given.reply ≡ refused lost
      → has unknown_outcome lost.code ≡ true
      → BlockedIfAsked stack.id w (run_locked started_after g operation stack agent w)
  run_locked-Blocks operation stack agent w r u =
      run_locked-by started_after g (BlockedIfAsked stack.id w) operation stack agent w
        (λ e asked. absurd (asked refl))
        λ revision services fingerprint _ _ _ asked.
          let attempt =
            dispatched_operation started_after g operation stack revision agent services
              fingerprint in
          let ready = prepared_operation g operation stack revision fingerprint w in
          let way = dispatch-lost attempt ready r u in
          subst (λ t. Blocks stack.id t.1) (sym way)
            (unfold dispatched_operation in
              Blocks-interrupted g.given attempt lost.code (sent_on attempt ready) (
                unfold record_audit in
                unfold operation_started in (w.operations, _, refl, refl, refl)))

  holding-Blocks :
      (operation : StackLifecycleKind) (stack : StackRow) (agent : String) (w : World)
      (lock : Result ℕ × MutationRegistry)
      → g.given.reply ≡ refused lost
      → has unknown_outcome lost.code ≡ true
      → BlockedIfAsked stack.id w (run_holding started_after g operation stack agent w lock)
  unfolding run_holding has_unresolved_operation
  holding-Blocks operation stack agent w (err f, registry) r u asked = absurd (asked refl)
  holding-Blocks operation stack agent w (ok ticket, registry) r u asked =
      run_locked-Blocks operation stack agent (record w { registry = registry }) r u asked

  run-Blocks :
      (operation : StackLifecycleKind) (stack_id : String) (w : World)
      → g.given.reply ≡ refused lost
      → has unknown_outcome lost.code ≡ true
      → BlockedIfAsked stack_id w (run started_after g operation stack_id w)
  unfolding run
  run-Blocks operation stack_id w r u = elim (Result-cases (operable w stack_id)) [
    | inr (e, refusal) ↦ rw (run, refusal) (λ asked. absurd (asked refl))
    | inl (stack, found) ↦ elim (Result-cases (reachable_agent w stack.host_id)) [
      | inr (e, off) ↦ rw (run, found, off) (λ asked. absurd (asked refl))
      | inl (agent, on) ↦
          let lock = acquire ("stack:" <> stack_id) (kind_name operation) w.registry in
          let held = holding-Blocks operation stack agent w lock r u in
          rw (run, found, on)
            (subst
              (λ id. BlockedIfAsked id w (run_holding started_after g operation stack agent w lock))
              (operable-facts w stack_id stack found).0 held)
    ]
  ]

-- When the agent was asked for an operation and the reply was lost, because it did not come in time
-- or the connection was, every further operation and deletion of the stack is refused and changes
-- nothing, so that nothing is asked twice.
pub lost_reply_blocks :
    (started_after : String → String → Bool) (g : OperationGiven) (lost : AppError)
    (operation : StackLifecycleKind) (stack_id : String) (w : World) (g' : OperationGiven)
    (operation' : StackLifecycleKind)
    → g.given.reply ≡ refused lost
    → has unknown_outcome lost.code ≡ true
    → (run started_after g operation stack_id w).1.requests ≢ w.requests
    → ((e : AppError) × (run started_after g' operation' stack_id
            (run started_after g operation stack_id w).1
          ≡ (err e, (run started_after g operation stack_id w).1)))
      × ((e : AppError) × (delete g'.given stack_id (run started_after g operation stack_id w).1
            ≡ (err e, (run started_after g operation stack_id w).1)))
lost_reply_blocks started_after g lost operation stack_id w g' operation' r u asked =
    let blocks = run-Blocks started_after g lost operation stack_id w r u asked in
    let after = (run started_after g operation stack_id w).1 in
    (
      blocked_run started_after g' operation' stack_id after blocks,
      blocked_delete g'.given stack_id after blocks,
    )
