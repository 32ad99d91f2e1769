-- ===== src/Operations/Registry/Exclusive.antt =====
-- At most one operation holds a key (api/src/operations/mutation-registry.ts).
use dockplane.Base.{
  ℕ, zero, suc, ◌+◌, ◌<◌, String, ◌≡◌, refl, ◌≢◌, false, not, ◌&&◌, none, some, List, [], ◌∷◌, ◌++◌,
  arith, ◌==◌, ==_iff, string_eq, Option-cases, inl, inr, if◌then◌else◌, length, filter, is_some,
  get, get-put, get-drop_key,
}
use dockplane.Operations.Registry.{
  Ticket, MutationRegistry, acquire, open_ticket, mark_released, release, is_busy,
}

-- How many tickets of the key are out.
abbrev pub holders : String → List Ticket → ℕ
holders key tickets = length (filter (λ t. t.key == key && not t.released) tickets)

holders-last :
    (key : String) (t : Ticket) (tickets : List Ticket)
    → holders key (tickets ++ t ∷ []) ≡ holders key tickets + holders key (t ∷ [])
holders-last key t [] = ground arith
holders-last key t (u ∷ tickets) = ground (arith, holders-last key t tickets)

holders-mark_released :
    (n : ℕ) (tickets : List Ticket) (key j : String)
    → open_ticket n tickets ≡ some key
    → holders j tickets ≡ holders j (mark_released n tickets) + (if key == j then 1 else 0)
unfolding open_ticket mark_released
holders-mark_released n [] key j e = absurd (ground arith)
holders-mark_released zero (t ∷ tickets) key j e = ground arith
holders-mark_released (suc n) (t ∷ tickets) key j e =
    ground (arith, holders-mark_released n tickets key j)

open_ticket-mark_released :
    (n : ℕ) (tickets : List Ticket) → open_ticket n (mark_released n tickets) ≡ none
unfolding open_ticket mark_released
open_ticket-mark_released n [] = refl
open_ticket-mark_released zero (t ∷ tickets) = refl
open_ticket-mark_released (suc n) (t ∷ tickets) = open_ticket-mark_released n tickets

-- The registries that can be reached. An operation has a name that is not empty.
pub data Run : MutationRegistry → Type 0 where
  empty : Run (record { held = []; tickets = [] })
  acquired :
      {r : MutationRegistry} (key operation : String)
      → operation ≢ ""
      → Run r
      → Run (acquire key operation r).1
  released : {r : MutationRegistry} (n : ℕ) → Run r → Run (release n r)

record IsExclusive (r : MutationRegistry) : Type 0 where
  pub single : (key : String) → holders key r.tickets ≡ (if is_some (get r.held key) then 1 else 0)
  pub named : (key operation : String) → get r.held key ≡ some operation → operation ≢ ""

acquire-IsExclusive :
    (r : MutationRegistry) (key operation : String)
    → operation ≢ ""
    → IsExclusive r
    → IsExclusive (acquire key operation r).1
unfolding acquire
acquire-IsExclusive r key operation name x = elim (Option-cases (get r.held key)) [
  | inl free ↦ record {
    single = λ j. ground (
      arith,
      holders-last j (record { key = key; released = false }) r.tickets,
      get-put r.held key operation j,
      x.single j,
      ==_iff key j,
      free,
    );
    named = λ j o e. ground (arith, get-put r.held key operation j, x.named j o, name);
  }
  | inr (existing, held) ↦ record {
    single = λ j. ground (arith, x.single j, x.named key existing, ==_iff existing "");
    named = λ j o e. ground (arith, x.named j o, x.named key existing, ==_iff existing "");
  }
]

release-IsExclusive : (r : MutationRegistry) (n : ℕ) → IsExclusive r → IsExclusive (release n r)
unfolding release
release-IsExclusive r n x = elim (Option-cases (open_ticket n r.tickets)) [
  | inl over ↦ record {
    single = λ j. ground (arith, x.single j);
    named = λ j o e. ground (arith, x.named j o);
  }
  | inr (key, out) ↦ record {
    single = λ j. ground (
      arith,
      holders-mark_released n r.tickets key j,
      get-drop_key r.held key j,
      x.single j,
      ==_iff key j,
    );
    named = λ j o e. ground (arith, get-drop_key r.held key j, x.named j o);
  }
]

Run-IsExclusive : {r : MutationRegistry} → Run r → IsExclusive r
unfolding get
Run-IsExclusive empty = record { single = λ j. refl; named = λ j o e. ground arith }
Run-IsExclusive (acquired {r} key operation name run) =
    acquire-IsExclusive r key operation name (Run-IsExclusive run)
Run-IsExclusive (released {r} n run) = release-IsExclusive r n (Run-IsExclusive run)

-- However the lock is taken and released, as long as every operation has a name, a key is busy
-- exactly while one function that releases it has not been called, and never more than one.
pub one_holder :
    (r : MutationRegistry) (key : String)
    → Run r
    → holders key r.tickets ≡ (if is_busy r key then 1 else 0)
unfolding is_busy
one_holder r key run = (Run-IsExclusive run).single key

open_ticket-++ :
    (n : ℕ) (xs ys : List Ticket) → n < length xs → open_ticket n (xs ++ ys) ≡ open_ticket n xs
unfolding open_ticket
open_ticket-++ n [] ys h = absurd (ground arith)
open_ticket-++ zero (t ∷ xs) ys h = refl
open_ticket-++ (suc n) (t ∷ xs) ys h = open_ticket-++ n xs ys (ground arith)

length-mark_released : (n : ℕ) (xs : List Ticket) → length (mark_released n xs) ≡ length xs
unfolding mark_released
length-mark_released n [] = refl
length-mark_released zero (t ∷ xs) = refl
length-mark_released (suc n) (t ∷ xs) = ground (arith, length-mark_released n xs)

released_over : (n : ℕ) (r : MutationRegistry) → open_ticket n (release n r).tickets ≡ none
unfolding release
released_over n r = elim (Option-cases (open_ticket n r.tickets)) [
  | inl over ↦ ground arith
  | inr (key, out) ↦ ground (arith, open_ticket-mark_released n r.tickets)
]

pub length-release :
    (n : ℕ) (r : MutationRegistry) → length (release n r).tickets ≡ length r.tickets
unfolding release
length-release n r = ground (arith, length-mark_released n r.tickets)

acquire-over :
    (key operation : String) (n : ℕ) (r : MutationRegistry)
    → n < length r.tickets
    → open_ticket n r.tickets ≡ none
    → open_ticket n (acquire key operation r).1.tickets ≡ none
unfolding acquire
acquire-over key operation n r known over =
    ground (arith, open_ticket-++ n r.tickets (record { key = key; released = false } ∷ []))

release-over : (n : ℕ) (r : MutationRegistry) → open_ticket n r.tickets ≡ none → release n r ≡ r
unfolding release
release-over n r over = ground arith

-- A function that releases and was called before does nothing when it is called again, also when
-- the lock was taken in between.
release_again :
    (key operation : String) (n : ℕ) (r : MutationRegistry)
    → n < length r.tickets
    → let r' = (acquire key operation (release n r)).1 in release n r' ≡ r'
release_again key operation n r known =
    release-over n (acquire key operation (release n r)).1
      (acquire-over key operation n (release n r) (rw length-release known) (released_over n r))
