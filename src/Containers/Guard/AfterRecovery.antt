-- ===== src/Containers/Guard/AfterRecovery.antt =====
-- What the guard of api/src/containers/pending-guard.ts answers after a mutation was finished by
-- api/src/containers/recovery-finalizer.ts.
use dockplane.Base.{
  ℕ, String, ◌≡◌, refl, ◌≢◌, true, false, ◌&&◌, none, some, List, [], ◌∷◌, arith, ◌==◌, ==_iff,
  string_eq, option_eq, Bool-cases, inl, inr, find, any, All, Any, update_where, delete_where,
  is_blank, ok, err, conflict,
}
use dockplane.Containers.Recovery.{promote_pending, identity_conflict, needs_attention}
use dockplane.Containers.Store.{
  current, pending, succeeded, ConfigRow, ActionRow, ContainerRow, Database, is_pending, is_current,
}
use dockplane.Containers.Finalizer.{RecoveryContext, finalize}
use dockplane.Containers.Finalizer.Effects.{
  needs_attention-configs, conflicted, identity_conflict-containers, promote-rows,
}
use dockplane.Containers.Guard.{assert_resolved, assert_operable}
use dockplane.Containers.Guard.Conditions.{IsFree, IsOver, resolved_iff, operable_iff}

-- The row found after a marking update carries the mark.
found_marked :
    (id : String) (f : ContainerRow → ContainerRow) (rows : List ContainerRow)
    → ((c : ContainerRow) → (f c).id ≡ c.id)
    → Any (λ c. c.id ≡ id) rows
    → (c : ContainerRow) × (find (λ c. c.id == id) (update_where (λ c. c.id == id) f rows)
        ≡ some (f c))
found_marked id f [] keeps there = absurd there
found_marked id f (c ∷ rows) keeps there = elim (Bool-cases (c.id == id)) [
  | inl hit ↦ (c, ground (arith, keeps c))
  | inr miss ↦
      let (d, found) = found_marked id f rows keeps (ground (arith, ==_iff c.id id)) in
      (d, ground arith)
]

module _ (ctx : RecoveryContext) (now : ℕ) (db db' : Database) where
  open ctx use {container_id as container}

  -- A mutation that was closed as needing attention keeps its candidate, so the guard goes on
  -- refusing every operation on a container that has one.
  attention_refuses :
      (reason : String)
      → finalize ctx now (needs_attention reason) db ≡ (true, db')
      → any (λ r. r.container_id == container && is_pending r.state) db.configs ≡ true
      → assert_operable db' container
        ≡ err (
            conflict "ACTION_CONFLICT"
              "A configuration change on this container has not been resolved yet.")
  unfolding assert_operable assert_resolved
  attention_refuses reason e held =
      let same = needs_attention-configs ctx now db db' reason e in rw same (rw held refl)

  -- A mutation that was closed as a conflict leaves its container, if it is recorded, refused by
  -- the guard, whatever else is recorded of it.
  pub conflict_refuses :
      (reason : String)
      → finalize ctx now (identity_conflict reason) db ≡ (true, db')
      → Any (λ c. c.id ≡ container) db.containers
      → assert_operable db' container ≢ ok tt
  conflict_refuses reason e there operable =
      let rows = identity_conflict-containers ctx now db db' reason e in
      let (c, found) =
        found_marked container (conflicted ctx now) db.containers (λ c. refl) there in
      let (_, _, row) = (operable_iff db' container).0 operable in
      let found' : find (λ c. c.id == container) db'.containers ≡ some (conflicted ctx now c) =
        rw rows found in
      let clear = rw found' at row in ground (arith, clear.0)

  freed :
      (config : String) (rows : List ConfigRow)
      → All (λ r. r.container_id ≡ container → r.state ≡ pending → r.id ≡ config) rows
      → All (IsFree container) (
          update_where
            (λ r. r.id == config && is_pending r.state)
            (λ r. record r { state = current; action_id = none; updated_at = now })
            (delete_where (λ r. r.container_id == container && is_current r.state) rows))
  freed config [] h = tt
  freed config (r ∷ rows) (only, h) =
      ground (arith, freed config rows h, ==_iff r.container_id container, ==_iff r.id config)

  over :
      (rows : List ActionRow)
      → All (λ a. (¬ (some a.id ≡ ctx.action_id)) → IsOver container a) rows
      → All (IsOver container) (
          update_where
            (λ a. some a.id == ctx.action_id)
            (λ a. record a { status = succeeded; completed_at = some now })
            rows)
  over [] h = tt
  over (a ∷ rows) (rest, h) = ground (arith, over rows h, ==_iff (some a.id) ctx.action_id)

  -- Promoting the only candidate of a container, in the name of its only unfinished change, leaves
  -- nothing of the container unresolved.
  pub promotion_resolves :
      (config : String)
      → is_blank ctx.action_id ≡ false
      → All (λ r. r.container_id ≡ container → r.state ≡ pending → r.id ≡ config) db.configs
      → All (λ a. (¬ (some a.id ≡ ctx.action_id)) → IsOver container a) db.actions
      → finalize ctx now (promote_pending config) db ≡ (true, db')
      → assert_resolved db' container ≡ ok tt
  promotion_resolves config named only others e =
      let (configs, actions) = promote-rows ctx now db db' config e in
      (resolved_iff db' container).1
        (rw configs (freed config db.configs only), rw (actions named) (over db.actions others))
