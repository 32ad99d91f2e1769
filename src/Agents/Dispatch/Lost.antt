-- ===== src/Agents/Dispatch/Lost.antt =====
-- What `abandon` of api/src/agents/agent-dispatch.service.ts leaves of a connection that is gone.
use dockplane.Base.{
  ℕ, String, ◌≡◌, refl, ◌≢◌, ◌↔◌, Option, none, some, List, [], ◌∷◌, arith, ◌==◌, ==_iff, nat_eq,
  string_eq, Bool-cases, inl, inr, get, get-drop_key, keys, NoDup, In, if◌then◌else◌, ◌∙◌, ap, ◌&&◌,
  conflict, some-injective,
}
use dockplane.Agents.Dispatch.{
  PendingRequest, Dispatch, close_request, abandon_requests, Answer, rejected, app,
}
use dockplane.Agents.Dispatch.Streams.{abandon}
use dockplane.Agents.Dispatch.Streams.Requests.{abandon-Apart}

-- What is left under an identifier of which the loop saw the entry.
abbrev left : ℕ → Option PendingRequest → Option PendingRequest → Option PendingRequest
left socket none now = now
left socket (some p) now = if p.socket == socket then none else now

abbrev closed : Answer
closed = rejected (app (conflict "AGENT_NOT_CONNECTED" "The connection closed before an answer."))

abbrev round : ℕ → String → PendingRequest → Dispatch → Dispatch
round socket k p d = if p.socket == socket then close_request k closed d else d

get-absent :
    {V : Type 0} (entries : List (String × V)) (id : String)
    → (¬ In id (keys entries))
    → get entries id ≡ none
unfolding get keys
get-absent [] id h = refl
get-absent ((k, v) ∷ entries) id h = ground (arith, get-absent entries id, ==_iff k id)

get-round :
    (socket : ℕ) (k : String) (p : PendingRequest) (d : Dispatch) (id : String)
    → get (round socket k p d).pending id
      ≡ (if k == id && p.socket == socket then none else get d.pending id)
unfolding close_request
get-round socket k p d id = elim (Bool-cases (p.socket == socket)) [
  | inl hit ↦ rw hit (ground (arith, get-drop_key d.pending k id))
  | inr miss ↦ rw miss (ground arith)
]

left-cons :
    (socket : ℕ) (k : String) (p : PendingRequest) (rest : List (String × PendingRequest))
    (id : String) (now : Option PendingRequest)
    → (¬ In k (keys rest))
    → left socket (get rest id) (if k == id && p.socket == socket then none else now)
      ≡ left socket (get ((k, p) ∷ rest) id) now
unfolding get
left-cons socket k p rest id now fresh = elim (Bool-cases (k == id)) [
  | inl same ↦
      let gone : get rest id ≡ none = get-absent rest id (ground (arith, ==_iff k id)) in
      rw (gone, same) (ground arith)
  | inr other ↦ rw other refl
]

abandon_requests-get :
    (socket : ℕ) (rest : List (String × PendingRequest)) (d : Dispatch) (id : String)
    → NoDup (keys rest)
    → get (abandon_requests socket rest d).pending id ≡ left socket (get rest id) (get d.pending id)
unfolding abandon_requests keys
abandon_requests-get socket [] d id once = unfold get in refl
abandon_requests-get socket ((k, p) ∷ rest) d id once =
    abandon_requests-get socket rest (round socket k p d) id once.1
    ∙ ap (left socket (get rest id)) (get-round socket k p d id)
    ∙ left-cons socket k p rest id (get d.pending id) once.0

left_iff :
    (socket : ℕ) (o : Option PendingRequest) (p : PendingRequest)
    → (left socket o o ≡ some p) ↔ ((o ≡ some p) × (p.socket ≢ socket))
left_iff socket none p = ground arith
left_iff socket (some q) p = (
  (λ e. ground (arith, ==_iff q.socket socket)),
  λ h.
      let (same, apart) = h in
      let on : q.socket ≡ p.socket =
        ap (λ (r : PendingRequest). r.socket) (some-injective _ _ same) in
      ground (arith, ==_iff q.socket socket),
)

-- Once a connection is gone, a request is waiting exactly when it was waiting before and went out
-- on another one. The identifiers of those waiting are taken to be distinct.
pub abandon_requests_iff :
    (socket : ℕ) (d : Dispatch) (id : String) (p : PendingRequest)
    → NoDup (keys d.pending)
    → (get (abandon socket d).pending id ≡ some p)
      ↔ ((get d.pending id ≡ some p) × (p.socket ≢ socket))
abandon_requests_iff socket d id p once =
    rw ((abandon-Apart socket d).requests, abandon_requests-get socket d.pending d id once)
      (left_iff socket (get d.pending id) p)
