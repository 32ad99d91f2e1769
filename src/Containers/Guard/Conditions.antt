-- ===== src/Containers/Guard/Conditions.antt =====
-- When api/src/containers/pending-guard.ts lets an operation on a container through.
use dockplane.Base.{
  String, ◌≡◌, ap, ◌≢◌, ◌↔◌, true, false, ◌&&◌, Option, none, some, List, [], ◌∷◌, arith, ◌==◌,
  ==_iff, string_eq, option_eq, Option-cases, inl, inr, find, any, All, ok,
}
use dockplane.Containers.Store.{
  pending, ConfigRow, ActionRow, AttemptRow, ContainerRow, Database, is_pending, is_unfinished,
}
use dockplane.Containers.Guard.{
  is_unfinishable, is_unresolved, has_unresolved, assert_resolved, assert_stack,
  assert_stack_settled, assert_operable,
}

abbrev pub IsFree : String → ConfigRow → Type 0
IsFree container r = r.container_id ≡ container → r.state ≢ pending

-- The action is not an unfinished change to the container.
abbrev pub IsOver : String → ActionRow → Type 0
IsOver container a =
    a.target_type ≡ some "container"
    → a.target_id ≡ some container
    → is_unfinished a.status ≡ true
    → is_unfinishable a.capability ≡ false

no_pending_iff :
    (container : String) (rows : List ConfigRow)
    → (any (λ r. r.container_id == container && is_pending r.state) rows ≡ false)
      ↔ All (IsFree container) rows
no_pending_iff container [] = ground arith
no_pending_iff container (r ∷ rows) =
    ground (arith, no_pending_iff container rows, ==_iff r.container_id container)

no_change_iff :
    (container : String) (rows : List ActionRow)
    → (any
          (λ a.
            a.target_type == some "container"
            && a.target_id == some container
            && is_unfinished a.status
            && is_unfinishable a.capability)
          rows
        ≡ false)
      ↔ All (IsOver container) rows
no_change_iff container [] = ground arith
no_change_iff container (a ∷ rows) = ground (
  arith,
  no_change_iff container rows,
  ==_iff a.target_type (some "container"),
  ==_iff a.target_id (some container),
)

-- Nothing unfinished is recorded for the container itself.
pub resolved_iff :
    (db : Database) (container : String)
    → (assert_resolved db container ≡ ok tt)
      ↔ (All (IsFree container) db.configs × All (IsOver container) db.actions)
unfolding assert_resolved
resolved_iff db container =
    ground (arith, no_pending_iff container db.configs, no_change_iff container db.actions)

-- No attempt on the stack is unresolved.
abbrev pub IsQuiet : String → List AttemptRow → Type 0
IsQuiet stack = All (λ d. d.stack_id ≡ stack → is_unresolved d.status ≡ false)

no_unresolved_iff :
    (stack : String) (rows : List AttemptRow)
    → (has_unresolved stack rows ≡ false) ↔ IsQuiet stack rows
no_unresolved_iff stack [] = ground arith
no_unresolved_iff stack (d ∷ rows) =
    ground (arith, no_unresolved_iff stack rows, ==_iff d.stack_id stack)

abbrev pub NeedsNoAttention : Database → String → Type 0
NeedsNoAttention db stack = elim (find (λ s. s.id == stack) db.stacks) [
  | none ↦ Unit {0}
  | some s ↦ s.status ≢ "needs_attention"
]

-- The stack has no unresolved attempt or operation, and does not need attention.
abbrev pub IsSettledStack : Database → String → Type 0
IsSettledStack db stack =
    IsQuiet stack db.deployments × IsQuiet stack db.operations × NeedsNoAttention db stack

stack_iff :
    (db : Database) (stack : String) → (assert_stack db stack ≡ ok tt) ↔ IsSettledStack db stack
unfolding assert_stack
stack_iff db stack = elim (Option-cases (find (λ s. s.id == stack) db.stacks)) [
  | inl missing ↦
      ground (arith, no_unresolved_iff stack db.deployments, no_unresolved_iff stack db.operations)
  | inr (s, found) ↦ ground (
    arith,
    no_unresolved_iff stack db.deployments,
    no_unresolved_iff stack db.operations,
    ==_iff s.status "needs_attention",
  )
]

-- What is asked of the container's own row, where there is one.
abbrev pub IsOperableRow : Database → Option ContainerRow → Type 0
IsOperableRow db none = Unit {0}
IsOperableRow db (some row) =
    (row.identity_conflict ≡ none)
    × ((stack : String) → row.stack_id ≡ some stack → stack ≢ "" → IsSettledStack db stack)

settled_iff :
    (db : Database) (row : ContainerRow) (container : String)
    → find (λ c. c.id == container) db.containers ≡ some row
    → (assert_stack_settled db container ≡ ok tt)
      ↔ ((stack : String) → row.stack_id ≡ some stack → stack ≢ "" → IsSettledStack db stack)
unfolding assert_stack_settled
settled_iff db row container found = elim (Option-cases row.stack_id) [
  | inl alone ↦ ((λ e stack h n. absurd (ground arith)), λ h. ground arith)
  | inr (stack, member) ↦ (
    (λ e other h n.
        let same : stack ≡ other = ground arith in
        rw (← same) ((stack_iff db stack).0 (ground (arith, ==_iff stack "", ap (λ s. s) same)))),
    λ h. ground (arith, ==_iff stack "", stack_iff db stack, h stack member),
  )
]

-- An operation on a container is let through exactly when no candidate configuration of it is
-- pending, no creation, replacement or removal of it is unfinished, its own row, where there is
-- one, records no conflict, and the stack of that row, where there is one, has no unresolved
-- deployment or operation and does not need attention.
pub operable_iff :
    (db : Database) (container : String)
    → (assert_operable db container ≡ ok tt) ↔ (
        All (IsFree container) db.configs
        × All (IsOver container) db.actions
        × IsOperableRow db (find (λ c. c.id == container) db.containers))
unfolding assert_operable
operable_iff db container = elim (Option-cases (find (λ c. c.id == container) db.containers)) [
  | inl missing ↦
      let alone : assert_stack_settled db container ≡ ok tt =
        unfold assert_stack_settled in ground arith in
      rw missing (ground (arith, resolved_iff db container))
  | inr (row, found) ↦
      rw found (ground (arith, resolved_iff db container, settled_iff db row container found))
]
