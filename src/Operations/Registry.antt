-- ===== src/Operations/Registry.antt =====
-- api/src/operations/mutation-registry.ts: what is currently being done to a container.
-- The function that `acquire` returns is a ticket: its number is its place in `tickets`, which
-- holds the key it was taken for and its own `released`. `lower` is JavaScript's `toLowerCase`.
pub mod Exclusive
pub mod Balanced
pub mod Refines
mod Tests
use dockplane.Base.{
  ℕ, zero, suc, String, Bool, true, false, not, ◌&&◌, Option, none, some, List, [], ◌∷◌, ◌++◌,
  string_eq, if◌then◌else◌, length, is_some, is_blank, get, put, drop_key, keys, ◌<>◌, conflict,
  Result, ok, err,
}

pub record Ticket : Type 0 where
  pub key : String
  pub released : Bool

pub record MutationRegistry : Type 0 where
  pub held : List (String × String)
  pub tickets : List Ticket

-- Takes the lock, or refuses.
unfoldable pub acquire : String → String → MutationRegistry → Result ℕ × MutationRegistry
acquire key operation r = elim (get r.held key) [
  | none ↦ (ok (length r.tickets), taken)
  | some existing ↦ if is_blank (some existing) then (ok (length r.tickets), taken) else (
    err (
        conflict "ACTION_CONFLICT"
          ("Another operation is already running on this resource: " <> existing <> ".")),
    r,
  )
]
  where
    taken : MutationRegistry
    taken = record {
      held = put r.held key operation;
      tickets = r.tickets ++ record { key = key; released = false } ∷ [];
    }

-- The key of a ticket that was not released.
unfoldable pub open_ticket : ℕ → List Ticket → Option String
open_ticket n [] = none
open_ticket zero (t ∷ tickets) = if t.released then none else some t.key
open_ticket (suc n) (t ∷ tickets) = open_ticket n tickets

-- `released = true`
unfoldable pub mark_released : ℕ → List Ticket → List Ticket
mark_released n [] = []
mark_released zero (t ∷ tickets) = record t { released = true } ∷ tickets
mark_released (suc n) (t ∷ tickets) = t ∷ mark_released n tickets

-- The function that `acquire` returned is called.
unfoldable pub release : ℕ → MutationRegistry → MutationRegistry
release n r = elim (open_ticket n r.tickets) [
  | none ↦ r
  | some key ↦ record { held = drop_key r.held key; tickets = mark_released n r.tickets }
]

pub is_busy : MutationRegistry → String → Bool
is_busy r key = is_some (get r.held key)

pub in_flight : MutationRegistry → List String
in_flight r = keys r.held

pub name_key : (String → String) → String → String → String
name_key lower host name = "name:" <> host <> ":" <> lower name
