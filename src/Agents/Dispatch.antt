-- ===== src/Agents/Dispatch.antt =====
-- api/src/agents/agent-dispatch.service.ts: requests to an agent and streams from one.
-- Sockets and payloads are numbers that stand for the objects. Drawn identifiers and the time are
-- arguments; `timers` and `stream_timers` are the timeouts that are set and not cleared. What a
-- caller is told is written to `answers` (its promise) and `heard` (its observer), so a caller does
-- not call back into the service while it is being told. Logging is left out.
pub mod Streams
pub mod Settling
pub mod Balance
pub mod Runs
pub mod Lost
mod Tests
use dockplane.Base.{
  ℕ, suc, ◌+◌, String, Bool, true, false, not, ◌||◌, Option, none, some, List, [], ◌∷◌, ◌++◌, ◌==◌,
  ◌!=◌, nat_eq, string_eq, if◌then◌else◌, length, filter, has, get, put, drop_key, or_else, ◌<>◌,
  AppError, bad_request, conflict, Result, ok, err,
}
use dockplane.Agents.Capabilities.{
  is_capability, is_streaming, capability_timeout_ms, agent_error_code, agent_error_message,
}
use dockplane.Agents.Connections.{Connections, AgentConnection}

pub record PendingRequest : Type 0 where
  pub agent_id : String
  pub capability : String
  pub socket : ℕ

pub record RunningStream : Type 0 where
  pub agent_id : String
  pub capability : String
  pub request_id : String
  pub stream_id : String
  pub socket : ℕ
  pub next : ℕ
  pub acknowledged : Bool
  pub ended : Bool

-- An error a promise is rejected with: one of the program's, or a plain `Error`.
pub data Failure : Type 0 where
  app : AppError → Failure
  plain : (message : String) → Failure

pub data Answer : Type 0 where
  resolved : (payload : ℕ) → Answer
  rejected : Failure → Answer

pub record StreamError : Type 0 where
  pub code : String
  pub message : String

pub data Heard : Type 0 where
  started : Heard
  chunk : (payload dropped : ℕ) → Heard
  ended : (reason : String) → Option StreamError → Heard

pub data Message : Type 0 where
  request :
      (id capability : String)
      → (stream_id : Option String) → (issued expires payload : ℕ) → Message
  stream_cancel : (id stream_id : String) → Message

pub record Dispatch : Type 0 where
  pub pending : List (String × PendingRequest)
  pub streams : List (String × RunningStream)
  pub timers : List (String × String)
  pub stream_timers : List (String × Unit {0})
  pub answers : List (String × Answer)
  pub heard : List (String × Heard)
  pub written : List (ℕ × Message)

pub pending_count : Dispatch → ℕ
pending_count d = length d.pending

pub stream_count : Dispatch → ℕ
stream_count d = length d.streams

abbrev pub timeout_of : String → ℕ
timeout_of capability = or_else (get capability_timeout_ms capability) 0

pub not_supported : String → AppError
not_supported what = bad_request "AGENT_CAPABILITY_UNSUPPORTED" what

pub not_connected : AppError
not_connected = conflict "AGENT_NOT_CONNECTED" "The agent is not connected."

pub send_request :
    Connections → String → String → ℕ → String → ℕ → Dispatch → Result (Unit {0}) × Dispatch
unfolding not_supported not_connected
send_request c agent capability payload id now d =
    if not (is_capability capability)
    then (err (not_supported "The capability is not supported."), d)
    else elim (get c.connections agent) [
      | none ↦ (err not_connected, d)
      | some connection ↦ (
        ok tt,
        record d {
          timers = put d.timers id capability;
          pending =
              put d.pending id
                (record { agent_id = agent; capability = capability; socket = connection.socket });
          written =
              d.written
              ++ (
                connection.socket,
                request id capability none now (now + timeout_of capability) payload,
              )
                ∷ [];
        },
      )
    ]

-- `clearTimeout(timer)`, `pending.delete(id)` and then `resolve` or `reject`.
pub close_request : String → Answer → Dispatch → Dispatch
close_request id answer d = record d {
  timers = drop_key d.timers id;
  pending = drop_key d.pending id;
  answers = d.answers ++ (id, answer) ∷ [];
}

-- The timer of a request fires; one that was cleared does not.
pub request_timeout : String → Dispatch → Dispatch
request_timeout id d = elim (get d.timers id) [
  | none ↦ d
  | some capability ↦
      close_request id
        (rejected (
          app (
            conflict "AGENT_REQUEST_TIMEOUT"
              ("The agent did not answer " <> capability <> " in time."))))
        d
]

pub settle_with_error : String → Failure → Dispatch → Dispatch
settle_with_error id error d = elim (get d.pending id) [
  | none ↦ d
  | some p ↦ close_request id (rejected error) d
]

-- The callback of the write that sent a request.
pub write_failed : String → Dispatch → Dispatch
write_failed id d = settle_with_error id (plain "The request could not be sent.") d

-- A reply with its payload, or with the code of its error where it has one.
pub data Reply : Type 0 where
  success : (payload : ℕ) → Reply
  failure : (code : Option String) → Reply

pub record CapabilityResponse : Type 0 where
  pub id : String
  pub capability : String
  pub reply : Reply

pub answer_of : Reply → Answer
answer_of (success payload) = resolved payload
answer_of (failure code) =
    rejected
      (app (bad_request (agent_error_code code) (agent_error_message (agent_error_code code))))

pub settle : ℕ → CapabilityResponse → Dispatch → Bool × Dispatch
settle socket m d = elim (get d.pending m.id) [
  | none ↦ (false, d)
  | some p ↦
      if p.socket != socket
      then (false, d)
      else if p.capability != m.capability
      then (
        false,
        settle_with_error m.id
            (app
              (bad_request "AGENT_RESPONSE_INVALID" "The agent answered a different capability."))
            d,
      )
      else (true, close_request m.id (answer_of m.reply) d)
]

-- The loop of `abandon` over the requests, one after the other.
pub abandon_requests : ℕ → List (String × PendingRequest) → Dispatch → Dispatch
abandon_requests socket [] d = d
abandon_requests socket ((id, p) ∷ rest) d = abandon_requests socket rest (
    if p.socket == socket
    then close_request id
        (rejected (app (conflict "AGENT_NOT_CONNECTED" "The connection closed before an answer.")))
        d
    else d)
