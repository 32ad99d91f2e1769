-- ===== src/Operations/Registry/Refines.antt =====
-- The lock as its callers may think of it: each key has at most one holder
-- (api/src/operations/mutation-registry.ts).
use dockplane.Base.{
  ℕ, zero, suc, ◌<◌, String, ◌≡◌, refl, ◌≢◌, ◌↔◌, ◌⊎◌, Bool, true, false, Option, none, some, List,
  [], ◌∷◌, ◌++◌, arith, ◌==◌, ==_iff, string_eq, nat_eq, option_eq, Option-cases, inl, inr,
  if◌then◌else◌, length, is_some, get, put, get-put, get-drop_key, ok, err, All, AppError, conflict,
  ◌<>◌,
}
use dockplane.Operations.Registry.{
  Ticket, MutationRegistry, acquire, open_ticket, mark_released, release, is_busy,
}
use dockplane.Operations.Registry.Exclusive.{length-release}

-- What a caller does: take a key for an operation, call the function that it was given, or ask.
pub data Command : Type 0 where
  take : String → String → Command
  give_back : ℕ → Command
  ask : String → Command

pub data Reply : Type 0 where
  granted : ℕ → Reply
  refused done : Reply
  busy : Bool → Reply

-- What the registry answers.
unfoldable pub replies : List Command → MutationRegistry → List Reply
replies [] r = []
replies (take key operation ∷ commands) r =
    let (result, r') = acquire key operation r in
    elim result [ ok n ↦ granted n | err e ↦ refused ] ∷ replies commands r'
replies (give_back n ∷ commands) r = done ∷ replies commands (release n r)
replies (ask key ∷ commands) r = busy (is_busy r key) ∷ replies commands r

-- The holder of each key is the number of the grant.
unfoldable pub promised : List Command → (String → Option ℕ) → ℕ → List Reply
promised [] holder next = []
promised (take key operation ∷ commands) holder next =
    if is_some (holder key)
    then refused ∷ promised commands holder next
    else granted next ∷ promised commands (λ k. if key == k then some next else holder k) (suc next)
promised (give_back n ∷ commands) holder next =
    done ∷ promised commands (λ k. if holder k == some n then none else holder k) next
promised (ask key ∷ commands) holder next =
    busy (is_some (holder key)) ∷ promised commands holder next

-- An operation has a name.
abbrev pub IsNamed : Command → Type 0
IsNamed (take key operation) = operation ≢ ""
IsNamed (give_back n) = Unit
IsNamed (ask key) = Unit

open_ticket-last_iff :
    (n : ℕ) (tickets : List Ticket) (key k : String)
    → (open_ticket n (tickets ++ record { key = key; released = false } ∷ []) ≡ some k)
      ↔ ((open_ticket n tickets ≡ some k) ⊎ ((n ≡ length tickets) × (key ≡ k)))
unfolding open_ticket
open_ticket-last_iff zero [] key k = ground arith
open_ticket-last_iff (suc n) [] key k = ground arith
open_ticket-last_iff zero (t ∷ tickets) key k = ground arith
open_ticket-last_iff (suc n) (t ∷ tickets) key k =
    ground (arith, open_ticket-last_iff n tickets key k)

open_ticket-mark_iff :
    (m n : ℕ) (tickets : List Ticket) (k : String)
    → (open_ticket m (mark_released n tickets) ≡ some k)
      ↔ ((open_ticket m tickets ≡ some k) × (m ≢ n))
unfolding open_ticket mark_released
open_ticket-mark_iff m n [] k = ground arith
open_ticket-mark_iff zero zero (t ∷ tickets) k = ground arith
open_ticket-mark_iff zero (suc n) (t ∷ tickets) k = ground arith
open_ticket-mark_iff (suc m) zero (t ∷ tickets) k = ground arith
open_ticket-mark_iff (suc m) (suc n) (t ∷ tickets) k =
    ground (arith, open_ticket-mark_iff m n tickets k)

open_ticket-known :
    (n : ℕ) (tickets : List Ticket) (k : String)
    → open_ticket n tickets ≡ some k
    → n < length tickets
unfolding open_ticket
open_ticket-known n [] k h = absurd (ground (arith, h))
open_ticket-known zero (t ∷ tickets) k h = omega arith
open_ticket-known (suc n) (t ∷ tickets) k h = ground (arith, open_ticket-known n tickets k h)

record Refines (r : MutationRegistry) (holder : String → Option ℕ) : Type 0 where
  pub same : (k : String) → is_some (get r.held k) ≡ is_some (holder k)
  pub named : (k : String) → get r.held k ≢ some ""
  pub out : (k : String) (n : ℕ) → (open_ticket n r.tickets ≡ some k) ↔ (holder k ≡ some n)

abbrev taken : String → String → MutationRegistry → MutationRegistry
taken key operation r = record {
  held = put r.held key operation;
  tickets = r.tickets ++ record { key = key; released = false } ∷ [];
}

taken-Refines :
    (key operation : String) (r : MutationRegistry) (holder : String → Option ℕ)
    → operation ≢ ""
    → holder key ≡ none
    → Refines r holder
    → Refines (taken key operation r) (λ k. if key == k then some (length r.tickets) else holder k)
taken-Refines key operation r holder name free x = record {
  same = λ k. ground (arith, get-put r.held key operation k, x.same k, ==_iff key k);
  named = λ k. ground (arith, get-put r.held key operation k, x.named k, name);
  out = λ k n. ground (
    arith,
    open_ticket-last_iff n r.tickets key k,
    x.out k n,
    ==_iff key k,
    free,
    open_ticket-known n r.tickets k,
  );
}

release-Refines :
    (n : ℕ) (r : MutationRegistry) (holder : String → Option ℕ)
    → Refines r holder
    → Refines (release n r) (λ k. if holder k == some n then none else holder k)
unfolding release
release-Refines n r holder x = elim (Option-cases (open_ticket n r.tickets)) [
  | inl over ↦ record {
    same = λ k. ground (arith, x.same k, x.out k n, over, ==_iff (holder k) (some n));
    named = λ k. ground (arith, x.named k, over);
    out = λ k m. ground (arith, x.out k m, x.out k n, over, ==_iff (holder k) (some n));
  }
  | inr (key, opened) ↦ record {
    same = λ k. ground (
      arith,
      x.same k,
      x.out k n,
      opened,
      get-drop_key r.held key k,
      ==_iff key k,
      ==_iff (holder k) (some n),
    );
    named = λ k. ground (arith, x.named k, opened, get-drop_key r.held key k);
    out = λ k m. ground (
      arith,
      x.out k m,
      x.out k n,
      opened,
      open_ticket-mark_iff m n r.tickets k,
      ==_iff (holder k) (some n),
    );
  }
]

acquire-free :
    (key operation : String) (r : MutationRegistry)
    → get r.held key ≡ none
    → acquire key operation r ≡ (ok (length r.tickets), taken key operation r)
unfolding acquire
acquire-free key operation r free = rw (acquire, free) refl

acquire-held :
    (key operation : String) (r : MutationRegistry) (existing : String)
    → get r.held key ≡ some existing
    → existing ≢ ""
    → (e : AppError) × (acquire key operation r ≡ (err e, r))
unfolding acquire
acquire-held key operation r existing held named =
    let full : (existing == "") ≡ false = ground (arith, named, ==_iff existing "") in
    let refusal =
      conflict "ACTION_CONFLICT"
        ("Another operation is already running on this resource: " <> existing <> ".") in
    let stopped : acquire key operation r ≡ (err refusal, r) = rw (acquire, held, full) refl in
    (refusal, stopped)

length-last :
    (tickets : List Ticket) (t : Ticket) → length (tickets ++ t ∷ []) ≡ suc (length tickets)
length-last [] t = refl
length-last (u ∷ tickets) t = ground (arith, length-last tickets t)

replies-promised :
    (commands : List Command) (r : MutationRegistry) (holder : String → Option ℕ)
    → All IsNamed commands
    → Refines r holder
    → replies commands r ≡ promised commands holder (length r.tickets)
unfolding replies promised is_busy
replies-promised [] r holder names x = refl
replies-promised (take key operation ∷ commands) r holder (name, names) x =
    elim (Option-cases (get r.held key)) [
      | inl free ↦
          let nobody : holder key ≡ none = ground (arith, free, x.same key) in
          let rest =
            replies-promised commands (taken key operation r) _ names
              (taken-Refines key operation r holder name nobody x) in
          rw (acquire-free key operation r free, nobody, rest, length-last) refl
      | inr (existing, held) ↦
          let somebody : is_some (holder key) ≡ true = ground (arith, held, x.same key) in
          let (e, refusal) =
            acquire-held key operation r existing held (ground (arith, held, x.named key)) in
          rw (refusal, somebody, replies-promised commands r holder names x) refl
    ]
replies-promised (give_back n ∷ commands) r holder (name, names) x =
    let rest = replies-promised commands (release n r) _ names (release-Refines n r holder x) in
    rw (rest, length-release) refl
replies-promised (ask key ∷ commands) r holder (name, names) x =
    rw (is_busy, x.same key, replies-promised commands r holder names x) refl

-- Whatever its callers do, as long as every operation has a name, the registry answers as a lock in
-- which each key has at most one holder: a key that is free is granted, a key that is held is
-- refused, and only the function that the holder was given frees it.
pub replies-refine :
    (commands : List Command)
    → All IsNamed commands
    → replies commands (record { held = []; tickets = [] }) ≡ promised commands (λ k. none) 0
unfolding get open_ticket
replies-refine commands names =
    replies-promised commands (record { held = []; tickets = [] }) (λ k. none) names
      (record { same = λ k. refl; named = λ k. ground arith; out = λ k n. ground arith })
