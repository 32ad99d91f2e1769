-- ===== src/Operations/Registry/Balanced.antt =====
-- A lock that is taken and given back (api/src/operations/mutation-registry.ts).
use dockplane.Base.{
  ℕ, String, ◌≡◌, ◌≢◌, refl, false, ◌⊎◌, inl, inr, none, some, Option-cases, List, [], ◌∷◌, ◌++◌,
  length, arith, ◌==◌, ==_iff, string_eq, get, get-put, get-drop_key, put, ok, err, AppError,
  conflict, ◌<>◌,
}
use dockplane.Operations.Registry.{Ticket, MutationRegistry, acquire, release, open_ticket}

open_ticket-last :
    (tickets : List Ticket) (key : String)
    → open_ticket (length tickets) (tickets ++ record { key = key; released = false } ∷ [])
      ≡ some key
unfolding open_ticket
open_ticket-last [] key = refl
open_ticket-last (t ∷ tickets) key = open_ticket-last tickets key

taken : String → String → MutationRegistry → MutationRegistry
taken key operation r = record {
  held = put r.held key operation;
  tickets = r.tickets ++ record { key = key; released = false } ∷ [];
}

release-taken :
    (r : MutationRegistry) (key operation k : String)
    → get r.held key ≡ none
    → get (release (length r.tickets) (taken key operation r)).held k ≡ get r.held k
unfolding release taken
release-taken r key operation k free = ground (
  arith,
  open_ticket-last r.tickets key,
  get-drop_key (put r.held key operation) key k,
  get-put r.held key operation k,
  ==_iff key k,
)

-- A key whose holder has a name is refused, and nothing changes; a free key is taken, and giving
-- the ticket back leaves every key as it was.
pub acquire-cases :
    (r : MutationRegistry) (key operation : String)
    → get r.held key ≢ some ""
    → ((e : AppError) × (acquire key operation r ≡ (err e, r)))
      ⊎ ((n : ℕ) × (r' : MutationRegistry) × (acquire key operation r ≡ (ok n, r'))
          × ((k : String) → get (release n r').held k ≡ get r.held k))
unfolding acquire taken
acquire-cases r key operation named = elim (Option-cases (get r.held key)) [
  | inl free ↦ inr (
    length r.tickets,
    taken key operation r,
    rw (acquire, free) refl,
    λ k. release-taken r key operation k free,
  )
  | inr (existing, held) ↦
      let full : (existing == "") ≡ false = ground (arith, named, held, ==_iff existing "") in
      let refusal =
        conflict "ACTION_CONFLICT"
          ("Another operation is already running on this resource: " <> existing <> ".") in
      let stopped : acquire key operation r ≡ (err refusal, r) = rw (acquire, held, full) refl in
      inl (refusal, stopped)
]
