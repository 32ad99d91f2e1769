-- ===== src/Agents/Dispatch/Settling.antt =====
-- What a reply does to the requests that wait (api/src/agents/agent-dispatch.service.ts).
use dockplane.Base.{
  ℕ, String, Bool, true, false, ◌≡◌, ◌≢◌, ◌⊎◌, refl, none, some, [], ◌∷◌, ◌++◌, arith, ◌==◌, ==_iff,
  nat_eq, string_eq, Option-cases, Bool-cases, inl, inr, get, get-drop_key, bad_request,
}
use dockplane.Agents.Dispatch.{
  PendingRequest, Answer, rejected, Failure, app, Dispatch, CapabilityResponse, close_request,
  answer_of, settle_with_error, settle,
}

abbrev pub mismatch : Failure
mismatch = app (bad_request "AGENT_RESPONSE_INVALID" "The agent answered a different capability.")

-- The request `id` was answered, and this alone: it does not wait and has no timer any more, its
-- caller was told, and every other request waits as before.
abbrev pub Closed : String → Answer → Dispatch → Dispatch → Type 0
Closed id answer d after =
    (after.answers ≡ d.answers ++ (id, answer) ∷ [])
    × (get after.pending id ≡ none)
    × (get after.timers id ≡ none)
    × ((k : String) → k ≢ id → get after.pending k ≡ get d.pending k)

close_request-Closed :
    (id : String) (answer : Answer) (d : Dispatch) → Closed id answer d (close_request id answer d)
unfolding close_request
close_request-Closed id answer d = (
  refl,
  ground (arith, get-drop_key d.pending id id, ==_iff id id),
  ground (arith, get-drop_key d.timers id id, ==_iff id id),
  λ k other. ground (arith, get-drop_key d.pending id k, ==_iff id k, ==_iff k id, other),
)

-- What a reply comes to for the request that it names.
abbrev pub Replied : CapabilityResponse → PendingRequest → Dispatch → Bool × Dispatch → Type 0
Replied m p d r =
    ((p.capability ≡ m.capability) × (r.0 ≡ true) × Closed m.id (answer_of m.reply) d r.1)
    ⊎ ((p.capability ≢ m.capability) × (r.0 ≡ false) × Closed m.id (rejected mismatch) d r.1)

-- A reply from the socket that a waiting request of its identifier went out on answers that request
-- and no other: with what the reply says when it names the capability that was asked for, and else
-- with an error, and only the first counts as settled. Any other reply changes nothing.
pub settle-cases :
    (socket : ℕ) (m : CapabilityResponse) (d : Dispatch)
    → ((p : PendingRequest) × (get d.pending m.id ≡ some p)
        × (p.socket ≡ socket)
        × Replied m p d (settle socket m d))
      ⊎ (((p : PendingRequest) → get d.pending m.id ≡ some p → p.socket ≢ socket)
          × (settle socket m d ≡ (false, d)))
unfolding settle settle_with_error
settle-cases socket m d = elim (Option-cases (get d.pending m.id)) [
  | inl missing ↦ inr ((λ p h. ground (arith, missing, h)), rw (settle, missing) refl)
  | inr (p, waiting) ↦ elim (Bool-cases (p.socket == socket)) [
    | inr other ↦ inr (
      (λ q h. ground (arith, waiting, h, ==_iff p.socket socket, other)),
      ground (arith, waiting, ==_iff p.socket socket, other),
    )
    | inl same ↦ elim (Bool-cases (p.capability == m.capability)) [
      | inl asked ↦
          let done : settle socket m d ≡ (true, close_request m.id (answer_of m.reply) d) =
            rw (settle, waiting, same, asked) refl in
          inl (
            p,
            waiting,
            (==_iff p.socket socket).0 same,
            rw done (
                inl (
                  (==_iff p.capability m.capability).0 asked,
                  refl,
                  close_request-Closed m.id (answer_of m.reply) d,
                )),
          )
      | inr different ↦
          let done : settle socket m d ≡ (false, close_request m.id (rejected mismatch) d) =
            rw (settle, waiting, same, different, settle_with_error, waiting) refl in
          inl (
            p,
            waiting,
            (==_iff p.socket socket).0 same,
            rw done (
                inr (
                  (λ e. ground (arith, ==_iff p.capability m.capability, different, e)),
                  refl,
                  close_request-Closed m.id (rejected mismatch) d,
                )),
          )
    ]
  ]
]
