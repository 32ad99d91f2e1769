-- ===== src/Containers/Finalizer/Once.antt =====
-- An interrupted mutation is finished at most once (api/src/containers/recovery-finalizer.ts).
use dockplane.Base.{
  ℕ, String, ◌≡◌, refl, ◌∙◌, true, false, ◌&&◌, Option, none, some, arith, ◌==◌, string_eq,
  option_eq, is_blank, any-update_where,
}
use dockplane.Containers.Recovery.{
  RecoveryOperation, create, RecoveryDecision, promote_pending, discard_pending, finalize_remove,
  fail_operation, identity_conflict, needs_attention, no_action,
}
use dockplane.Containers.Store.{ActionStatus, ActionRow, succeeded, failed, Database, is_unfinished}
use dockplane.Containers.Finalizer.{
  RecoveryContext, Outcome, Attempt, done, stale, finish_action, delete_containers, released_in,
  discarded_in, promoted_in, conflicted_in, claim, promote, release_created, discard_candidate,
  discard_claimed, discard, finalize_removed, fail_claimed, conflict_claimed, attention_claimed,
  apply, record_outcome, settle_attempt, finalize,
}

code : Unit {0}
unfolding promote discard discard_claimed release_created discard_candidate finalize_removed
    fail_claimed conflict_claimed attention_claimed apply
code = tt

-- What a call that finished the mutation leaves: the action closed, in a database `db₀`.
record Finished (ctx : RecoveryContext) (now : ℕ) (db' : Database) : Type 0 where
  pub before : Database
  pub status : ActionStatus
  pub error : Option String
  pub closed : is_unfinished status ≡ false
  pub result : db' ≡ finish_action ctx status error now before

module _ (ctx : RecoveryContext) (now : ℕ) where
  unclaimed_discard :
      (op : RecoveryOperation) (c : String) (db db' : Database)
      → discard_claimed ctx now op c db ≡ done none db'
      → db' ≡ db
  unfolding code
  unclaimed_discard create c db db' e = ground arith
  unclaimed_discard _ c db db' e = ground arith

  unclaimed_apply :
      (d : RecoveryDecision) (db db' : Database) → apply ctx now d db ≡ done none db' → db' ≡ db
  unfolding apply promote discard finalize_removed fail_claimed conflict_claimed attention_claimed
  unclaimed_apply (discard_pending c) db db' e =
      ground (arith, unclaimed_discard ctx.operation c db db')
  unclaimed_apply _ db db' e = ground arith

  settle_unchanged :
      (a : Attempt) (db db' : Database)
      → ((d : Database) → a ≡ done none d → d ≡ db)
      → settle_attempt ctx db a ≡ (false, db')
      → db' ≡ db
  unfolding settle_attempt
  settle_unchanged (done none d) db db' h e = ground (arith, h d refl)
  settle_unchanged (done (some o) d) db db' h e = ground arith
  settle_unchanged stale db db' h e = ground arith

  -- A call that does not finish the mutation leaves the database as it was, also when it found in
  -- the middle of its transaction that the rows had moved.
  finalize_unchanged :
      (d : RecoveryDecision) (db db' : Database) → finalize ctx now d db ≡ (false, db') → db' ≡ db
  unfolding finalize
  finalize_unchanged (no_action r) db db' e = ground arith
  finalize_unchanged d db db' e =
      settle_unchanged (apply ctx now d db) db db' (unclaimed_apply d db) e

  discard_claimed-Finished :
      (op : RecoveryOperation) (c : String) (o : Outcome) (db db' : Database)
      → discard_claimed ctx now op c db ≡ done (some o) db'
      → Finished ctx now db'
  unfolding code
  discard_claimed-Finished create c o db db' e = record {
    before = released_in ctx now db;
    status = failed;
    error = some "CONTAINER_CREATE_FAILED";
    closed = refl;
    result = ground arith;
  }
  discard_claimed-Finished _ c o db db' e = record {
    before = discarded_in ctx now c db;
    status = failed;
    error = some "REPLACEMENT_FAILED";
    closed = refl;
    result = ground arith;
  }

  apply-Finished :
      (d : RecoveryDecision) (o : Outcome) (db db' : Database)
      → apply ctx now d db ≡ done (some o) db'
      → Finished ctx now db'
  unfolding apply promote discard finalize_removed fail_claimed conflict_claimed attention_claimed
  apply-Finished (promote_pending c) o db db' e = record {
    before = promoted_in ctx now c db;
    status = succeeded;
    error = none;
    closed = refl;
    result = ground arith;
  }
  apply-Finished (discard_pending c) o db db' e =
      discard_claimed-Finished ctx.operation c o db db' (ground arith)
  apply-Finished finalize_remove o db db' e = record {
    before = delete_containers (λ c. c.id == ctx.container_id) db;
    status = succeeded;
    error = none;
    closed = refl;
    result = ground arith;
  }
  apply-Finished (fail_operation r) o db db' e = record {
    before = db;
    status = failed;
    error = some "CONTAINER_REMOVE_FAILED";
    closed = refl;
    result = ground arith;
  }
  apply-Finished (identity_conflict r) o db db' e = record {
    before = conflicted_in ctx now db;
    status = failed;
    error = some "CONTAINER_IDENTITY_CONFLICT";
    closed = refl;
    result = ground arith;
  }
  apply-Finished (needs_attention r) o db db' e = record {
    before = db;
    status = failed;
    error = some "CONTAINER_STATE_UNRESOLVED";
    closed = refl;
    result = ground arith;
  }
  apply-Finished (no_action r) o db db' e = absurd (ground arith)

  -- Once the action is closed nobody can claim it again.
  Finished-claim :
      (config : Option String) (db' : Database)
      → is_blank ctx.action_id ≡ false
      → Finished ctx now db'
      → claim ctx config db' ≡ false
  unfolding claim finish_action
  Finished-claim config db' named f =
      let none_open =
        any-update_where (λ (a : ActionRow). some a.id == ctx.action_id && is_unfinished a.status)
          (λ (a : ActionRow). some a.id == ctx.action_id)
          (λ (a : ActionRow). record a {
            status = f.status;
            completed_at = some now;
            error_code = elim f.error [ none ↦ a.error_code | some code ↦ some code ];
          })
          f.before.actions (λ a. ground arith) in
      rw (f.result, named) none_open

module _ (ctx : RecoveryContext) (db : Database)
    (free : (c : Option String) → claim ctx c db ≡ false) where
  apply_unclaimed : (now : ℕ) (d : RecoveryDecision) → apply ctx now d db ≡ done none db
  unfolding apply promote discard finalize_removed fail_claimed conflict_claimed attention_claimed
  apply_unclaimed now (promote_pending c) = ground (arith, free (some c))
  apply_unclaimed now (discard_pending c) = ground (arith, free (some c))
  apply_unclaimed now _ = ground (arith, free none)

  finalize_unclaimed : (now : ℕ) (d : RecoveryDecision) → finalize ctx now d db ≡ (false, db)
  unfolding finalize settle_attempt
  finalize_unclaimed now (no_action r) = refl
  finalize_unclaimed now d = rw (apply_unclaimed now d, settle_attempt)

attempt-true :
    (ctx : RecoveryContext) (db db' : Database) (a : Attempt)
    → settle_attempt ctx db a ≡ (true, db')
    → (o : Outcome) × (d : Database) × (a ≡ done (some o) d) × (db' ≡ record_outcome ctx o d)
unfolding settle_attempt
attempt-true ctx db db' (done none d) e = absurd (ground arith)
attempt-true ctx db db' (done (some o) d) e = (o, d, refl, ground arith)
attempt-true ctx db db' stale e = absurd (ground arith)

-- A finished mutation was applied, and audited once.
pub finalize-true :
    (ctx : RecoveryContext) (now : ℕ) (d : RecoveryDecision) (db db' : Database)
    → finalize ctx now d db ≡ (true, db')
    → (o : Outcome) × (after : Database) × (apply ctx now d db ≡ done (some o) after)
      × (db' ≡ record_outcome ctx o after)
unfolding finalize
finalize-true ctx now (no_action r) db db' e = absurd (ground arith)
finalize-true ctx now d db db' e = attempt-true ctx db db' (apply ctx now d db) e

record_outcome-claim :
    (ctx : RecoveryContext) (o : Outcome) (db : Database) (c : Option String)
    → claim ctx c (record_outcome ctx o db) ≡ claim ctx c db
unfolding claim record_outcome
record_outcome-claim ctx o db c = refl

claim_of_action :
    (ctx ctx' : RecoveryContext) (c : Option String) (db : Database)
    → ctx'.action_id ≡ ctx.action_id
    → claim ctx' c db ≡ claim ctx c db
unfolding claim
claim_of_action ctx ctx' c db same = rw same refl

-- A mutation that recorded an action is finished at most once: after a call that finished it, every
-- later call for the same action, with any decision, finishes nothing and changes nothing.
pub finalize_once :
    (ctx ctx' : RecoveryContext) (now later : ℕ) (d d' : RecoveryDecision) (db db' : Database)
    → is_blank ctx.action_id ≡ false
    → ctx'.action_id ≡ ctx.action_id
    → finalize ctx now d db ≡ (true, db')
    → finalize ctx' later d' db' ≡ (false, db')
finalize_once ctx ctx' now later d d' db db' named same e =
    let (o, after, applied, recorded) = finalize-true ctx now d db db' e in
    let closed = apply-Finished ctx now d o db after applied in
    finalize_unclaimed ctx' db'
      (λ c.
        claim_of_action ctx ctx' c db' same
        ∙ rw (recorded, record_outcome-claim) (Finished-claim ctx now c after named closed))
      later d'
