-- ===== src/Agents/Dispatch/Runs.antt =====
-- Runs of api/src/agents/agent-dispatch.service.ts: requests that are sent, and whatever else
-- happens in between, in any order.
use dockplane.Base.{
  ℕ, ◌+◌, String, ◌≡◌, refl, false, Option, List, [], ◌∷◌, arith, ==_iff, string_eq, Option-cases,
  inl, inr, get, put, get-put, keys, NoDup, NoDup-keys-put, has, if◌then◌else◌, ok,
}
use dockplane.Agents.Connections.{Connections}
use dockplane.Agents.Dispatch.{
  PendingRequest, Dispatch, CapabilityResponse, StreamError, send_request, request_timeout,
  write_failed, settle,
}
use dockplane.Agents.Dispatch.Streams.{
  open_stream, accept_timeout, stream_write_failed, accept_stream_start, accept_stream_chunk,
  accept_stream_end, cancel_stream, abandon, end_streams_of,
}
use dockplane.Agents.Dispatch.Streams.Requests.{
  open_stream-Apart, accept_timeout-Apart, stream_write_failed-Apart, accept_stream_start-Apart,
  accept_stream_chunk-Apart, accept_stream_end-Apart, cancel_stream-Apart, end_streams_of-Apart,
}
use dockplane.Agents.Dispatch.Balance.{
  answered, waiting, balance, IsTimely, Keeps, Apart-Keeps, write_failed-Keeps,
  request_timeout-Keeps, settle-Keeps, abandon-Keeps,
}

-- What reaches the service, besides a request to send.
pub data Event : Type 0 where
  timed_out : (id : String) → Event
  not_written : (id : String) → Event
  replied : (socket : ℕ) → CapabilityResponse → Event
  closed : (socket : ℕ) → Event
  stream_opened :
      Connections
      → (agent capability : String) → (payload : ℕ) → (id stream_id : String) → (now : ℕ) → Event
  stream_timed_out : (id : String) → Event
  stream_not_written : (id : String) → Event
  stream_started : (socket : ℕ) → (id stream_id capability : String) → Event
  stream_chunked : (socket : ℕ) → (id stream_id : String) → (seq payload dropped : ℕ) → Event
  stream_ended : (socket : ℕ) → (id stream_id reason : String) → Option StreamError → Event
  stream_cancelled : Connections → (id : String) → Event
  agent_ended : (agent code message : String) → Event

unfoldable pub handle : Event → Dispatch → Dispatch
handle (timed_out id) d = request_timeout id d
handle (not_written id) d = write_failed id d
handle (replied socket m) d = (settle socket m d).1
handle (closed socket) d = abandon socket d
handle (stream_opened c agent capability payload id stream_id now) d =
    (open_stream c agent capability payload id stream_id now d).1
handle (stream_timed_out id) d = accept_timeout id d
handle (stream_not_written id) d = stream_write_failed id d
handle (stream_started socket id stream_id capability) d =
    (accept_stream_start socket id stream_id capability d).1
handle (stream_chunked socket id stream_id seq payload dropped) d =
    (accept_stream_chunk socket id stream_id seq payload dropped d).1
handle (stream_ended socket id stream_id reason error) d =
    (accept_stream_end socket id stream_id reason error d).1
handle (stream_cancelled c id) d = cancel_stream c id d
handle (agent_ended agent code message) d = (end_streams_of agent code message d).1

handle-Keeps :
    (e : Event) (d : Dispatch) → IsTimely d → NoDup (keys d.pending) → Keeps d (handle e d)
unfolding handle
handle-Keeps (timed_out id) d t u = request_timeout-Keeps id d t
handle-Keeps (not_written id) d t u = write_failed-Keeps id d
handle-Keeps (replied socket m) d t u = settle-Keeps socket m d
handle-Keeps (closed socket) d t u = abandon-Keeps socket d u
handle-Keeps (stream_opened c agent capability payload id stream_id now) d t u =
    Apart-Keeps (open_stream-Apart c agent capability payload id stream_id now d)
handle-Keeps (stream_timed_out id) d t u = Apart-Keeps (accept_timeout-Apart id d)
handle-Keeps (stream_not_written id) d t u = Apart-Keeps (stream_write_failed-Apart id d)
handle-Keeps (stream_started socket id stream_id capability) d t u =
    Apart-Keeps (accept_stream_start-Apart socket id stream_id capability d)
handle-Keeps (stream_chunked socket id stream_id seq payload dropped) d t u =
    Apart-Keeps (accept_stream_chunk-Apart socket id stream_id seq payload dropped d)
handle-Keeps (stream_ended socket id stream_id reason error) d t u =
    Apart-Keeps (accept_stream_end-Apart socket id stream_id reason error d)
handle-Keeps (stream_cancelled c id) d t u = Apart-Keeps (cancel_stream-Apart c id d)
handle-Keeps (agent_ended agent code message) d t u =
    Apart-Keeps (end_streams_of-Apart agent code message d)

abbrev pub idle : Dispatch
idle = record {
  pending = [];
  streams = [];
  timers = [];
  stream_timers = [];
  answers = [];
  heard = [];
  written = [];
}

-- The states that can be reached, with the identifiers of the requests that were sent. Each is
-- drawn afresh.
pub data Run : List String → Dispatch → Type 0 where
  begin : Run [] idle
  sent :
      {ids : List String} {d d' : Dispatch} (c : Connections) (agent capability : String)
      (payload : ℕ) (id : String) (now : ℕ)
      → has ids id ≡ false
      → send_request c agent capability payload id now d ≡ (ok tt, d')
      → Run ids d
      → Run (id ∷ ids) d'
  happened : {ids : List String} {d : Dispatch} (e : Event) → Run ids d → Run ids (handle e d)

-- Of each identifier, the one request that was sent for it is waiting or was answered.
pub record IsBalanced (ids : List String) (d : Dispatch) : Type 0 where
  pub even : (id : String) → balance id d ≡ (if has ids id then 1 else 0)
  pub timely : IsTimely d
  pub unique : NoDup (keys d.pending)

Keeps-IsBalanced :
    {ids : List String} {d d' : Dispatch} → IsBalanced ids d → Keeps d d' → IsBalanced ids d'
Keeps-IsBalanced b k = record {
  even = λ id. ground (arith, k.same id, b.even id);
  timely = k.timely b.timely;
  unique = k.unique b.unique;
}

-- A request that was sent is waiting, with its timer set, and is not answered by this.
record Sent (id : String) (d d' : Dispatch) : Type 0 where
  pub request : PendingRequest
  pub capability : String
  pub requests : d'.pending ≡ put d.pending id request
  pub armed : d'.timers ≡ put d.timers id capability
  pub promises : d'.answers ≡ d.answers

send_request-Sent :
    (d d' : Dispatch) (c : Connections) (agent capability : String) (payload : ℕ) (id : String)
    (now : ℕ)
    → send_request c agent capability payload id now d ≡ (ok tt, d')
    → Sent id d d'
unfolding send_request
send_request-Sent d d' c agent capability payload id now e =
    elim (Option-cases (get c.connections agent)) [
      | inl missing ↦ absurd (ground arith)
      | inr (connection, found) ↦ record {
        request = record { agent_id = agent; capability = capability; socket = connection.socket };
        capability = capability;
        requests = ground arith;
        armed = ground arith;
        promises = ground arith;
      }
    ]

Sent-IsBalanced :
    (ids : List String) (id : String) (d d' : Dispatch)
    → has ids id ≡ false
    → Sent id d d'
    → IsBalanced ids d
    → IsBalanced (id ∷ ids) d'
unfolding has
Sent-IsBalanced ids id d d' fresh s b = record {
  even = λ j.
      rw (s.requests, s.promises)
        (ground (
          arith,
          get-put d.pending id s.request j,
          b.even id,
          b.even j,
          ==_iff id j,
          ==_iff j id,
          fresh,
        ));
  timely = λ j.
      rw (s.requests, s.armed)
        (ground (
          arith,
          get-put d.pending id s.request j,
          get-put d.timers id s.capability j,
          b.timely j,
        ));
  unique = rw s.requests (NoDup-keys-put d.pending id s.request b.unique);
}

Run-IsBalanced : {ids : List String} {d : Dispatch} → Run ids d → IsBalanced ids d
unfolding get keys has
Run-IsBalanced begin = record { even = λ id. refl; timely = λ id armed. ground arith; unique = tt }
Run-IsBalanced (sent {ids} {d} {d'} c agent capability payload id now fresh e run) =
    Sent-IsBalanced ids id d d' fresh (send_request-Sent d d' c agent capability payload id now e)
      (Run-IsBalanced run)
Run-IsBalanced (happened {ids} {d} event run) =
    let b = Run-IsBalanced run in Keeps-IsBalanced b (handle-Keeps event d b.timely b.unique)

-- In every run, a request that was sent is either waiting and was not answered, or was answered
-- once and is not waiting, and nothing is answered that was not sent.
pub answered_once :
    (ids : List String) (d : Dispatch) (id : String)
    → Run ids d
    → waiting id d + answered id d ≡ (if has ids id then 1 else 0)
answered_once ids d id run = (Run-IsBalanced run).even id
