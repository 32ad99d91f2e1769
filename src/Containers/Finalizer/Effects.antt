-- ===== src/Containers/Finalizer/Effects.antt =====
-- The rows that a finished mutation leaves, for those who read them afterwards.
use dockplane.Base.{
  ℕ, String, ◌≡◌, true, false, ◌&&◌, none, some, arith, ◌==◌, string_eq, option_eq, update_where,
  delete_where, is_blank,
}
use dockplane.Containers.Recovery.{promote_pending, identity_conflict, needs_attention}
use dockplane.Containers.Store.{current, succeeded, ContainerRow, Database, is_pending, is_current}
use dockplane.Containers.Finalizer.{
  RecoveryContext, finish_action, without_current, promoted_in, promote, conflicted_in,
  conflict_claimed, attention_claimed, apply, record_outcome, finalize,
}
use dockplane.Containers.Finalizer.Once.{finalize-true}

abbrev pub conflicted : RecoveryContext → ℕ → ContainerRow → ContainerRow
conflicted ctx now c = record c {
  identity_conflict = some ctx.observed_docker_ids;
  updated_at = now;
}

module _ (ctx : RecoveryContext) (now : ℕ) (db db' : Database) where
  pub needs_attention-configs :
      (reason : String)
      → finalize ctx now (needs_attention reason) db ≡ (true, db')
      → db'.configs ≡ db.configs
  unfolding apply attention_claimed finish_action record_outcome
  needs_attention-configs reason e =
      let (o, after, applied, recorded) = finalize-true ctx now (needs_attention reason) db db' e in
      ground arith

  pub identity_conflict-containers :
      (reason : String)
      → finalize ctx now (identity_conflict reason) db ≡ (true, db')
      → db'.containers
        ≡ update_where (λ c. c.id == ctx.container_id) (conflicted ctx now) db.containers
  unfolding apply conflict_claimed conflicted_in finish_action record_outcome
  identity_conflict-containers reason e =
      let (o, after, applied, recorded) =
        finalize-true ctx now (identity_conflict reason) db db' e in
      ground arith

  pub promote-rows :
      (c : String)
      → finalize ctx now (promote_pending c) db ≡ (true, db')
      → (db'.configs
          ≡ update_where
              (λ r. r.id == c && is_pending r.state)
              (λ r. record r { state = current; action_id = none; updated_at = now })
              (delete_where
                (λ r. r.container_id == ctx.container_id && is_current r.state)
                db.configs))
        × (is_blank ctx.action_id ≡ false
            → db'.actions
              ≡ update_where
                  (λ a. some a.id == ctx.action_id)
                  (λ a. record a { status = succeeded; completed_at = some now })
                  db.actions)
  unfolding apply promote promoted_in without_current finish_action record_outcome
  promote-rows c e =
      let (o, after, applied, recorded) = finalize-true ctx now (promote_pending c) db db' e in
      ground arith
