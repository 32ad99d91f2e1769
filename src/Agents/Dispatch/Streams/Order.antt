-- ===== src/Agents/Dispatch/Streams/Order.antt =====
-- The order of what a stream delivers (api/src/agents/agent-dispatch.service.ts).
use dockplane.Base.{
  ℕ, suc, String, ◌≡◌, ◌≢◌, ◌↔◌, true, false, none, some, [], ◌∷◌, ◌++◌, arith, ==_iff, nat_eq,
  string_eq, Option-cases, inl, inr, get, get-put, get-drop_key,
}
use dockplane.Agents.Dispatch.{RunningStream, chunk, ended, Dispatch}
use dockplane.Agents.Dispatch.Streams.{
  hear, end_stream, unavailable, stream_for, accept_stream_chunk,
}

-- The stream under the identifier of the request runs, under this identifier and on this socket.
pub record IsOn (socket : ℕ) (id stream_id : String) (d : Dispatch) (s : RunningStream)
    : Type 0 where
  pub found : get d.streams id ≡ some s
  pub runs : s.ended ≡ false
  pub named : s.stream_id ≡ stream_id
  pub same : s.socket ≡ socket

stream_for_iff :
    (socket : ℕ) (id stream_id : String) (d : Dispatch) (s : RunningStream)
    → (stream_for socket id stream_id d ≡ some s) ↔ IsOn socket id stream_id d s
unfolding stream_for
stream_for_iff socket id stream_id d s = elim (Option-cases (get d.streams id)) [
  | inl missing ↦ ((λ e. absurd (ground arith)), λ h. let f = h.found in absurd (ground arith))
  | inr (t, found) ↦ (
    (λ e. record {
      found = ground arith;
      runs = ground arith;
      named = ground (arith, ==_iff t.stream_id stream_id);
      same = ground (arith, ==_iff t.socket socket);
    }),
    λ h.
        let same : t ≡ s = ground (arith, h.found) in
        ground (
          arith,
          h.found,
          h.runs,
          h.named,
          h.same,
          ==_iff t.stream_id stream_id,
          ==_iff t.socket socket,
        ),
  )
]

-- A chunk is accepted exactly when the stream runs under its two identifiers on the same socket and
-- the chunk is the next one.
accept_chunk_iff :
    (socket : ℕ) (id stream_id : String) (seq payload dropped : ℕ) (d : Dispatch)
    → ((accept_stream_chunk socket id stream_id seq payload dropped d).0 ≡ true)
      ↔ ((s : RunningStream) × IsOn socket id stream_id d s × (seq ≡ s.next))
unfolding accept_stream_chunk
accept_chunk_iff socket id stream_id seq payload dropped d =
    elim (Option-cases (stream_for socket id stream_id d)) [
      | inl missing ↦ (
        (λ e. absurd (ground arith)),
        λ h.
            let (s, on, next) = h in
            absurd (ground (arith, stream_for_iff socket id stream_id d s)),
      )
      | inr (t, found) ↦ (
        (λ e. (
          t,
          (stream_for_iff socket id stream_id d t).0 found,
          ground (arith, ==_iff seq t.next),
        )),
        λ h.
            let (s, on, next) = h in
            let there = (stream_for_iff socket id stream_id d s).1 on in
            let same : t ≡ s = ground arith in ground (arith, ==_iff seq t.next),
      )
    ]

-- The next chunk of a running stream is delivered, and the stream then waits for the one after it.
chunk_next :
    (socket : ℕ) (id stream_id : String) (seq payload dropped : ℕ) (d : Dispatch)
    (s : RunningStream)
    → IsOn socket id stream_id d s
    → seq ≡ s.next
    → let r = accept_stream_chunk socket id stream_id seq payload dropped d in
      (get r.1.streams id ≡ some (record s { next = suc s.next }))
      × (r.1.heard ≡ d.heard ++ (id, chunk payload dropped) ∷ [])
unfolding accept_stream_chunk hear
chunk_next socket id stream_id seq payload dropped d s on next =
    let found = (stream_for_iff socket id stream_id d s).1 on in
    let after = get-put d.streams id (record s { next = suc s.next }) id in
    (ground (arith, after, ==_iff seq s.next, ==_iff id id), ground (arith, ==_iff seq s.next))

-- A chunk out of order ends a running stream, which is what its observer hears of it.
chunk_gap :
    (socket : ℕ) (id stream_id : String) (seq payload dropped : ℕ) (d : Dispatch)
    (s : RunningStream)
    → IsOn socket id stream_id d s
    → seq ≢ s.next
    → let r = accept_stream_chunk socket id stream_id seq payload dropped d in
      (get r.1.streams id ≡ none)
      × (r.1.heard
          ≡ d.heard ++ (id, ended "failed" (unavailable "The stream lost its place.")) ∷ [])
unfolding accept_stream_chunk end_stream hear
chunk_gap socket id stream_id seq payload dropped d s on other =
    let found = (stream_for_iff socket id stream_id d s).1 on in
    let there = on.found in
    let runs = on.runs in
    let gone = get-drop_key d.streams id id in
    (ground (arith, gone, ==_iff seq s.next, ==_iff id id), ground (arith, ==_iff seq s.next))
