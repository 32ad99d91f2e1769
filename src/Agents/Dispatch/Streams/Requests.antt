-- ===== src/Agents/Dispatch/Streams/Requests.antt =====
-- What the streams of api/src/agents/agent-dispatch.service.ts leave alone: the requests.
use dockplane.Base.{
  ℕ, suc, String, ◌≡◌, refl, ◌∙◌, Option, List, [], ◌∷◌, arith, ◌==◌, nat_eq, string_eq, Bool-cases,
  inl, inr,
}
use dockplane.Agents.Connections.{Connections}
use dockplane.Agents.Dispatch.{RunningStream, StreamError, Dispatch, abandon_requests}
use dockplane.Agents.Dispatch.Streams.{
  end_stream, hear, open_stream, accept_timeout, stream_write_failed, accept_stream_start,
  accept_stream_chunk, accept_stream_end, cancel_stream, abandon_streams, abandon, end_each,
  end_streams_of,
}

-- A step that touches neither the requests, nor their timers, nor their promises.
pub record Apart (d d' : Dispatch) : Type 0 where
  pub requests : d'.pending ≡ d.pending
  pub armed : d'.timers ≡ d.timers
  pub promises : d'.answers ≡ d.answers

Apart-refl : (d : Dispatch) → Apart d d
Apart-refl d = record { requests = refl; armed = refl; promises = refl }

Apart-trans : {d d' d'' : Dispatch} → Apart d d' → Apart d' d'' → Apart d d''
Apart-trans a b = record {
  requests = b.requests ∙ a.requests;
  armed = b.armed ∙ a.armed;
  promises = b.promises ∙ a.promises;
}

end_stream-Apart :
    (id reason : String) (e : Option StreamError) (d : Dispatch)
    → Apart d (end_stream id reason e d)
unfolding end_stream hear
end_stream-Apart id reason e d = record {
  requests = ground arith;
  armed = ground arith;
  promises = ground arith;
}

pub open_stream-Apart :
    (c : Connections) (agent capability : String) (payload : ℕ) (id stream_id : String) (now : ℕ)
    (d : Dispatch)
    → Apart d (open_stream c agent capability payload id stream_id now d).1
unfolding open_stream
open_stream-Apart c agent capability payload id stream_id now d = record {
  requests = ground arith;
  armed = ground arith;
  promises = ground arith;
}

pub accept_timeout-Apart : (id : String) (d : Dispatch) → Apart d (accept_timeout id d)
unfolding accept_timeout end_stream hear
accept_timeout-Apart id d = record {
  requests = ground arith;
  armed = ground arith;
  promises = ground arith;
}

pub stream_write_failed-Apart : (id : String) (d : Dispatch) → Apart d (stream_write_failed id d)
unfolding stream_write_failed
stream_write_failed-Apart id d = end_stream-Apart id "failed" _ d

pub accept_stream_start-Apart :
    (socket : ℕ) (id stream_id capability : String) (d : Dispatch)
    → Apart d (accept_stream_start socket id stream_id capability d).1
unfolding accept_stream_start hear
accept_stream_start-Apart socket id stream_id capability d = record {
  requests = ground arith;
  armed = ground arith;
  promises = ground arith;
}

pub accept_stream_chunk-Apart :
    (socket : ℕ) (id stream_id : String) (seq payload dropped : ℕ) (d : Dispatch)
    → Apart d (accept_stream_chunk socket id stream_id seq payload dropped d).1
unfolding accept_stream_chunk end_stream hear
accept_stream_chunk-Apart socket id stream_id seq payload dropped d = record {
  requests = ground arith;
  armed = ground arith;
  promises = ground arith;
}

pub accept_stream_end-Apart :
    (socket : ℕ) (id stream_id reason : String) (e : Option StreamError) (d : Dispatch)
    → Apart d (accept_stream_end socket id stream_id reason e d).1
unfolding accept_stream_end end_stream hear
accept_stream_end-Apart socket id stream_id reason e d = record {
  requests = ground arith;
  armed = ground arith;
  promises = ground arith;
}

pub cancel_stream-Apart :
    (c : Connections) (id : String) (d : Dispatch) → Apart d (cancel_stream c id d)
unfolding cancel_stream end_stream hear
cancel_stream-Apart c id d = record {
  requests = ground arith;
  armed = ground arith;
  promises = ground arith;
}

abandon_streams-Apart :
    (socket : ℕ) (rest : List (String × RunningStream)) (d : Dispatch)
    → Apart d (abandon_streams socket rest d)
unfolding abandon_streams
abandon_streams-Apart socket [] d = Apart-refl d
abandon_streams-Apart socket ((id, s) ∷ rest) d = elim (Bool-cases (s.socket == socket)) [
  | inl hit ↦
      rw hit (Apart-trans (end_stream-Apart id "failed" _ d) (abandon_streams-Apart socket rest _))
  | inr miss ↦ rw miss (abandon_streams-Apart socket rest d)
]

pub abandon-Apart :
    (socket : ℕ) (d : Dispatch) → Apart (abandon_requests socket d.pending d) (abandon socket d)
unfolding abandon
abandon-Apart socket d = abandon_streams-Apart socket _ _

end_each-Apart :
    (agent : String) (e : StreamError) (rest : List (String × RunningStream)) (n : ℕ) (d : Dispatch)
    → Apart d (end_each agent e rest n d).1
unfolding end_each
end_each-Apart agent e [] n d = Apart-refl d
end_each-Apart agent e ((id, s) ∷ rest) n d = elim (Bool-cases (s.agent_id == agent)) [
  | inl hit ↦
      rw hit
        (Apart-trans (end_stream-Apart id "failed" _ d) (end_each-Apart agent e rest (suc n) _))
  | inr miss ↦ rw miss (end_each-Apart agent e rest n d)
]

pub end_streams_of-Apart :
    (agent code message : String) (d : Dispatch) → Apart d (end_streams_of agent code message d).1
unfolding end_streams_of
end_streams_of-Apart agent code message d = end_each-Apart agent _ d.streams 0 d
