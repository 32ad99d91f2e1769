-- ===== src/Containers/Finalizer/Promotion.antt =====
-- What promoting a candidate leaves (api/src/containers/recovery-finalizer.ts).
use dockplane.Base.{
  ℕ, String, ◌≡◌, refl, ap, ◌∙◌, Bool, true, not, ◌&&◌, none, some, List, [], ◌∷◌, arith, ◌==◌,
  ==_iff, string_eq, any, filter, All, Any, update_where, delete_where,
}
use dockplane.Containers.Recovery.{promote_pending}
use dockplane.Containers.Store.{current, ConfigRow, Database, is_pending, is_current}
use dockplane.Containers.Finalizer.{
  RecoveryContext, Outcome, done, finish_action, without_current, promoted_in, promote, apply,
  record_outcome, finalize,
}
use dockplane.Containers.Finalizer.Once.{finalize-true}

-- The configurations of the other containers.
abbrev pub of_others : String → List ConfigRow → List ConfigRow
of_others container = filter (λ r. not (r.container_id == container))

module _ (container config : String) (now : ℕ) where
  abbrev kept : List ConfigRow → List ConfigRow
  kept = delete_where (λ r. r.container_id == container && is_current r.state)

  abbrev is_candidate : ConfigRow → Bool
  is_candidate r = r.id == config && is_pending r.state

  abbrev as_current : ConfigRow → ConfigRow
  as_current r = record r { state = current; action_id = none; updated_at = now }

  abbrev IsOnly : ConfigRow → Type 0
  IsOnly r = r.container_id ≡ container → r.state ≡ current → r.id ≡ config

  one_current :
      (rows : List ConfigRow) → All IsOnly (update_where is_candidate as_current (kept rows))
  one_current [] = tt
  one_current (r ∷ rows) =
      ground (arith, one_current rows, ==_iff r.container_id container, ==_iff r.id config)

  now_current :
      (rows : List ConfigRow)
      → any is_candidate rows ≡ true
      → Any (λ r. (r.id ≡ config) × (r.state ≡ current)) (update_where is_candidate as_current rows)
  now_current [] h = absurd (ground arith)
  now_current (r ∷ rows) h = ground (arith, now_current rows, ==_iff r.id config)

  others_unchanged :
      (rows : List ConfigRow)
      → All (λ r. r.id ≡ config → r.container_id ≡ container) rows
      → of_others container (update_where is_candidate as_current (kept rows))
        ≡ of_others container rows
  others_unchanged [] h = refl
  others_unchanged (r ∷ rows) (mine, h) =
      ground (arith, others_unchanged rows h, ==_iff r.container_id container, ==_iff r.id config)

configs-record_outcome :
    (ctx : RecoveryContext) (o : Outcome) (db : Database)
    → (record_outcome ctx o db).configs ≡ db.configs
unfolding record_outcome
configs-record_outcome ctx o db = refl

promote-configs :
    (ctx : RecoveryContext) (now : ℕ) (c : String) (o : Outcome) (db after : Database)
    → apply ctx now (promote_pending c) db ≡ done (some o) after
    → (after.configs
        ≡ update_where
            (is_candidate ctx.container_id c now)
            (as_current ctx.container_id c now)
            (kept ctx.container_id c now db.configs))
      × (any (is_candidate ctx.container_id c now) (kept ctx.container_id c now db.configs) ≡ true)
unfolding apply promote promoted_in without_current finish_action
promote-configs ctx now c o db after e = ground arith

-- When a candidate of the container was promoted, it is a current configuration, every current
-- configuration of the container is that one, and the configurations of other containers are as
-- they were.
pub promotion :
    (ctx : RecoveryContext) (now : ℕ) (c : String) (db db' : Database)
    → All (λ r. r.id ≡ c → r.container_id ≡ ctx.container_id) db.configs
    → finalize ctx now (promote_pending c) db ≡ (true, db')
    → Any (λ r. (r.id ≡ c) × (r.state ≡ current)) db'.configs
      × All (λ r. r.container_id ≡ ctx.container_id → r.state ≡ current → r.id ≡ c) db'.configs
      × (of_others ctx.container_id db'.configs ≡ of_others ctx.container_id db.configs)
promotion ctx now c db db' mine e =
    let (o, after, applied, recorded) = finalize-true ctx now (promote_pending c) db db' e in
    let (rows, found) = promote-configs ctx now c o db after applied in
    let same =
      ap (λ (d : Database). d.configs) recorded ∙ configs-record_outcome ctx o after ∙ rows in
    rw same (
      now_current ctx.container_id c now (kept ctx.container_id c now db.configs) found,
      one_current ctx.container_id c now db.configs,
      others_unchanged ctx.container_id c now db.configs mine,
    )
