-- ===== src/Agents/Dispatch/Balance.antt =====
-- Every request is answered once: what is asked of api/src/agents/agent-dispatch.service.ts is
-- either waiting or answered, whatever order replies, timeouts and lost connections come in.
use dockplane.Base.{
  ℕ, ◌+◌, String, ◌≡◌, refl, ◌∙◌, Bool, true, some, List, [], ◌∷◌, ◌++◌, arith, ◌==◌, ==_iff,
  nat_eq, string_eq, Option-cases, inl, inr, get, get-drop_key, keys, NoDup, All, In,
  NoDup-keys-drop_key, All-get, All-get-drop_key, Bool-cases, if◌then◌else◌, is_some, length,
  filter, ◌<>◌, conflict, bad_request,
}
use dockplane.Agents.Dispatch.{
  PendingRequest, Failure, Answer, rejected, app, answer_of, Dispatch, CapabilityResponse,
  close_request, request_timeout, settle_with_error, write_failed, settle, abandon_requests,
}
use dockplane.Agents.Dispatch.Streams.{abandon}
use dockplane.Agents.Dispatch.Streams.Requests.{Apart, abandon-Apart}

abbrev mismatch : Failure
mismatch = app (bad_request "AGENT_RESPONSE_INVALID" "The agent answered a different capability.")

-- How often the promise of `id` was settled.
abbrev pub answered : String → Dispatch → ℕ
answered id d = length (filter (λ a. a.0 == id) d.answers)

abbrev pub waiting : String → Dispatch → ℕ
waiting id d = if is_some (get d.pending id) then 1 else 0

-- What is waiting together with what was answered.
abbrev pub balance : String → Dispatch → ℕ
balance id d = waiting id d + answered id d

length-filter-++ :
    {A : Type 0} (p : A → Bool) (xs ys : List A)
    → length (filter p (xs ++ ys)) ≡ length (filter p xs) + length (filter p ys)
length-filter-++ p [] ys = ground arith
length-filter-++ p (x ∷ xs) ys = ground (arith, length-filter-++ p xs ys)

-- A timer is set only for a request that waits.
abbrev pub IsTimely : Dispatch → Type 0
IsTimely d = (id : String) → is_some (get d.timers id) ≡ true → is_some (get d.pending id) ≡ true

-- The step keeps the balance of every identifier, the timers to those that wait, and the requests
-- to one for an identifier.
pub record Keeps (d d' : Dispatch) : Type 0 where
  pub same : (id : String) → balance id d' ≡ balance id d
  pub timely : IsTimely d → IsTimely d'
  pub unique : NoDup (keys d.pending) → NoDup (keys d'.pending)

pub Keeps-refl : (d : Dispatch) → Keeps d d
Keeps-refl d = record { same = λ id. refl; timely = λ t. t; unique = λ u. u }

pub Keeps-trans : {d d' d'' : Dispatch} → Keeps d d' → Keeps d' d'' → Keeps d d''
Keeps-trans k k' = record {
  same = λ id. k'.same id ∙ k.same id;
  timely = λ t. k'.timely (k.timely t);
  unique = λ u. k'.unique (k.unique u);
}

close_request-Keeps :
    (id : String) (a : Answer) (d : Dispatch) (p : PendingRequest)
    → get d.pending id ≡ some p
    → Keeps d (close_request id a d)
unfolding close_request
close_request-Keeps id a d p found = record {
  same = λ j. ground (
    arith,
    length-filter-++ (λ (a : String × Answer). a.0 == j) d.answers ((id, a) ∷ []),
    get-drop_key d.pending id j,
    ==_iff id j,
    found,
  );
  timely = λ t j armed.
      ground (arith, get-drop_key d.pending id j, get-drop_key d.timers id j, ==_iff id j, t j);
  unique = NoDup-keys-drop_key d.pending id;
}

Keeps-to : {d d' d'' : Dispatch} → Keeps d d'' → d' ≡ d'' → Keeps d d'
Keeps-to k e = rw e k

pub Apart-Keeps : {d d' : Dispatch} → Apart d d' → Keeps d d'
Apart-Keeps a = record {
  same = λ id. rw (a.requests, a.promises) refl;
  timely = λ t. rw (a.requests, a.armed) t;
  unique = λ u. rw a.requests u;
}

settle_with_error-Keeps :
    (id : String) (f : Failure) (d : Dispatch) → Keeps d (settle_with_error id f d)
unfolding settle_with_error
settle_with_error-Keeps id f d = elim (Option-cases (get d.pending id)) [
  | inl missing ↦ Keeps-to (Keeps-refl d) (ground arith)
  | inr (p, found) ↦ Keeps-to (close_request-Keeps id (rejected f) d p found) (ground arith)
]

pub write_failed-Keeps : (id : String) (d : Dispatch) → Keeps d (write_failed id d)
unfolding write_failed
write_failed-Keeps id d = settle_with_error-Keeps id _ d

pub request_timeout-Keeps :
    (id : String) (d : Dispatch) → IsTimely d → Keeps d (request_timeout id d)
unfolding request_timeout
request_timeout-Keeps id d timely = elim (Option-cases (get d.timers id)) [
  | inl disarmed ↦ Keeps-to (Keeps-refl d) (ground arith)
  | inr (capability, armed) ↦ elim (Option-cases (get d.pending id)) [
    | inl missing ↦ absurd (ground (arith, timely id))
    | inr (p, found) ↦
        Keeps-to
          (close_request-Keeps id
            (rejected (
              app (
                conflict "AGENT_REQUEST_TIMEOUT"
                  ("The agent did not answer " <> capability <> " in time."))))
            d p found)
          (ground arith)
  ]
]

pub settle-Keeps :
    (socket : ℕ) (m : CapabilityResponse) (d : Dispatch) → Keeps d (settle socket m d).1
unfolding settle
settle-Keeps socket m d = elim (Option-cases (get d.pending m.id)) [
  | inl missing ↦ Keeps-to (Keeps-refl d) (ground arith)
  | inr (p, found) ↦ elim (Bool-cases (p.socket == socket)) [
    | inr apart ↦ Keeps-to (Keeps-refl d) (ground arith)
    | inl on ↦ elim (Bool-cases (p.capability == m.capability)) [
      | inr other ↦ Keeps-to (settle_with_error-Keeps m.id mismatch d) (ground arith)
      | inl about ↦ Keeps-to (close_request-Keeps m.id (answer_of m.reply) d p found) (ground arith)
    ]
  ]
]

abbrev closed : Answer
closed = rejected (app (conflict "AGENT_NOT_CONNECTED" "The connection closed before an answer."))

-- One round of the loop of `abandon`.
abbrev abandoned : ℕ → String → PendingRequest → Dispatch → Dispatch
abandoned socket id p d = if p.socket == socket then close_request id closed d else d

abandoned-Keeps :
    (socket : ℕ) (id : String) (p : PendingRequest) (d : Dispatch)
    → get d.pending id ≡ some p
    → Keeps d (abandoned socket id p d)
abandoned-Keeps socket id p d found = elim (Bool-cases (p.socket == socket)) [
  | inl hit ↦ Keeps-to (close_request-Keeps id closed d p found) (rw hit refl)
  | inr miss ↦ Keeps-to (Keeps-refl d) (rw miss refl)
]

abandoned-there :
    (socket : ℕ) (id : String) (p : PendingRequest) (d : Dispatch)
    (rest : List (String × PendingRequest))
    → (¬ In id (keys rest))
    → All (λ e. get d.pending e.0 ≡ some e.1) rest
    → All (λ e. get (abandoned socket id p d).pending e.0 ≡ some e.1) rest
unfolding close_request
abandoned-there socket id p d rest other there = elim (Bool-cases (p.socket == socket)) [
  | inl hit ↦ rw hit (All-get-drop_key d.pending rest id other there)
  | inr miss ↦ rw miss there
]

abandon_requests-Keeps :
    (socket : ℕ) (rest : List (String × PendingRequest)) (d : Dispatch)
    → NoDup (keys rest)
    → All (λ e. get d.pending e.0 ≡ some e.1) rest
    → Keeps d (abandon_requests socket rest d)
unfolding abandon_requests keys
abandon_requests-Keeps socket [] d once there = Keeps-refl d
abandon_requests-Keeps socket ((id, p) ∷ rest) d once there =
    Keeps-trans (abandoned-Keeps socket id p d there.0) (
      abandon_requests-Keeps socket rest (abandoned socket id p d) once.1
        (abandoned-there socket id p d rest once.0 there.1))

pub abandon-Keeps :
    (socket : ℕ) (d : Dispatch) → NoDup (keys d.pending) → Keeps d (abandon socket d)
abandon-Keeps socket d once =
    Keeps-trans (abandon_requests-Keeps socket d.pending d once (All-get d.pending once))
      (Apart-Keeps (abandon-Apart socket d))
