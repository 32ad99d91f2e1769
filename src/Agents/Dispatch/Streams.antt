-- ===== src/Agents/Dispatch/Streams.antt =====
-- The streams of api/src/agents/agent-dispatch.service.ts, and what happens to both kinds of
-- exchange when a connection goes away.
pub mod Requests
pub mod Order
use dockplane.Base.{
  ℕ, suc, ◌+◌, String, Bool, true, false, not, ◌||◌, Option, none, some, List, [], ◌∷◌, ◌++◌, ◌==◌,
  ◌!=◌, nat_eq, string_eq, if◌then◌else◌, has, get, put, drop_key, Result, ok, err,
}
use dockplane.Agents.Capabilities.{is_streaming}
use dockplane.Agents.Connections.{Connections}
use dockplane.Agents.Dispatch.{
  RunningStream, StreamError, Heard, started, chunk, ended, Message, request, stream_cancel,
  Dispatch, timeout_of, not_supported, not_connected, abandon_requests,
}

pub hear : String → Heard → Dispatch → Dispatch
hear id what d = record d { heard = d.heard ++ (id, what) ∷ [] }

pub end_stream : String → String → Option StreamError → Dispatch → Dispatch
unfolding hear
end_stream id reason error d = elim (get d.streams id) [
  | none ↦ d
  | some s ↦
      if s.ended
      then d
      else hear id (ended reason error) (record d {
        stream_timers = drop_key d.stream_timers id;
        streams = drop_key d.streams id;
      })
]

pub unavailable : String → Option StreamError
unavailable message = some (record { code = "LOG_STREAM_UNAVAILABLE"; message = message })

-- The handle that is returned is the identifier of the stream; `cancel` is `cancel_stream`.
pub open_stream :
    Connections → String → String → ℕ → String → String → ℕ → Dispatch → Result String × Dispatch
unfolding not_supported not_connected
open_stream c agent capability payload id stream_id now d =
    if not (is_streaming capability)
    then (err (not_supported "The capability is not a stream."), d)
    else elim (get c.connections agent) [
      | none ↦ (err not_connected, d)
      | some connection ↦ (
        ok stream_id,
        record d {
          stream_timers = put d.stream_timers id tt;
          streams = put d.streams id (record {
            agent_id = agent;
            capability = capability;
            request_id = id;
            stream_id = stream_id;
            socket = connection.socket;
            next = 0;
            acknowledged = false;
            ended = false;
          });
          written =
              d.written
              ++ (
                connection.socket,
                request id capability (some stream_id) now (now + timeout_of capability) payload,
              )
                ∷ [];
        },
      )
    ]

-- The time to accept the stream is over; a timer that was cleared does not fire.
pub accept_timeout : String → Dispatch → Dispatch
unfolding unavailable
accept_timeout id d = elim (get d.stream_timers id) [
  | none ↦ d
  | some _ ↦ elim (get d.streams id) [
    | none ↦ d
    | some s ↦
        if s.acknowledged
        then d
        else end_stream id "failed" (unavailable "The agent did not start the stream.") d
  ]
]

-- The callback of the write that asked for the stream.
pub stream_write_failed : String → Dispatch → Dispatch
unfolding unavailable
stream_write_failed id d =
    end_stream id "failed" (unavailable "The stream could not be requested.") d

-- The stream that a message of the agent belongs to.
pub stream_for : ℕ → String → String → Dispatch → Option RunningStream
stream_for socket id stream_id d = elim (get d.streams id) [
  | none ↦ none
  | some s ↦
      if s.ended
      then none
      else if s.stream_id != stream_id || s.socket != socket
      then none
      else some s
]

pub accept_stream_start : ℕ → String → String → String → Dispatch → Bool × Dispatch
accept_stream_start socket id stream_id capability d = elim (stream_for socket id stream_id d) [
  | none ↦ (false, d)
  | some s ↦ if s.capability != capability then (false, d) else (
    true,
    hear id started (record d {
      stream_timers = drop_key d.stream_timers id;
      streams = put d.streams id (record s { acknowledged = true });
    }),
  )
]

pub accept_stream_chunk : ℕ → String → String → ℕ → ℕ → ℕ → Dispatch → Bool × Dispatch
unfolding unavailable
accept_stream_chunk socket id stream_id seq payload dropped d =
    elim (stream_for socket id stream_id d) [
      | none ↦ (false, d)
      | some s ↦
          if seq != s.next
          then (false, end_stream id "failed" (unavailable "The stream lost its place.") d)
          else (
            true,
            hear id (chunk payload dropped)
                (record d { streams = put d.streams id (record s { next = suc s.next }) }),
          )
    ]

pub accept_stream_end :
    ℕ → String → String → String → Option StreamError → Dispatch → Bool × Dispatch
accept_stream_end socket id stream_id reason error d = elim (stream_for socket id stream_id d) [
  | none ↦ (false, d)
  | some s ↦ (true, end_stream id reason error d)
]

-- The agent is told to stop, unless the socket was destroyed.
pub cancel_stream : Connections → String → Dispatch → Dispatch
cancel_stream c id d = elim (get d.streams id) [
  | none ↦ d
  | some s ↦
      if s.ended
      then d
      else end_stream id "cancelled" none (
          if not (has c.destroyed s.socket)
          then record d {
            written = d.written ++ (s.socket, stream_cancel s.request_id s.stream_id) ∷ [];
          }
          else d)
]

-- The loop of `abandon` over the streams, one after the other.
pub abandon_streams : ℕ → List (String × RunningStream) → Dispatch → Dispatch
abandon_streams socket [] d = d
abandon_streams socket ((id, s) ∷ rest) d = abandon_streams socket rest (
    if s.socket == socket
    then end_stream id "failed"
        (some (record { code = "AGENT_NOT_CONNECTED"; message = "The agent disconnected." })) d
    else d)

pub abandon : ℕ → Dispatch → Dispatch
abandon socket d =
    let failed = abandon_requests socket d.pending d in abandon_streams socket failed.streams failed

-- The loop of `endStreamsOf`, with the number of streams ended.
pub end_each : String → StreamError → List (String × RunningStream) → ℕ → Dispatch → ℕ × Dispatch
end_each agent error [] n d = (n, d)
end_each agent error ((id, s) ∷ rest) n d =
    if s.agent_id == agent
    then end_each agent error rest (suc n) (end_stream id "failed" (some error) d)
    else end_each agent error rest n d

pub end_streams_of : String → String → String → Dispatch → ℕ × Dispatch
end_streams_of agent code message d =
    end_each agent (record { code = code; message = message }) d.streams 0 d
