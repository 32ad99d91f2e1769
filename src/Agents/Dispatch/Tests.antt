-- ===== src/Agents/Dispatch/Tests.antt =====
-- A run of api/src/agents/agent-dispatch.service.ts, and the theorems about it there.
use dockplane.Base.{
  ◌⊎◌, false, ◌+◌, String, ◌≡◌, refl, ◌≢◌, ◌↔◌, true, false, none, some, [], ◌∷◌, arith, get, put,
  has, if◌then◌else◌, string_eq, keys, NoDup, ok,
}
use dockplane.Agents.Capabilities.{is_capability}
use dockplane.Agents.Connections.{Connections}
use dockplane.Agents.Dispatch.{
  PendingRequest, RunningStream, success, CapabilityResponse, Dispatch, send_request, settle,
}
use dockplane.Agents.Dispatch.Settling.{Replied, settle-cases}
use dockplane.Agents.Dispatch.Balance.{waiting, answered}
use dockplane.Agents.Dispatch.Runs.{
  replied, handle, idle, Run, begin, sent, happened, answered_once,
}
use dockplane.Agents.Dispatch.Lost.{abandon_requests_iff}
use dockplane.Agents.Dispatch.Streams.{abandon}
use dockplane.Agents.Dispatch.Streams.Order.{IsOn}

abbrev connections : Connections
connections = record {
  connections =
      ("a1", record { agent_id = "a1"; socket = 7; connected_at = 1; remote_address = none }) ∷ [];
  destroyed = [];
}

abbrev asked : Dispatch
asked = (send_request connections "a1" "host.metrics" 5 "q1" 1000 idle).1

abbrev expected : PendingRequest
expected = record { agent_id = "a1"; capability = "host.metrics"; socket = 7 }

abbrev reply : CapabilityResponse
reply = record { id = "q1"; capability = "host.metrics"; reply = success 9 }

send_run : send_request connections "a1" "host.metrics" 5 "q1" 1000 idle ≡ (ok tt, asked)
unfolding send_request is_capability get put has
send_run = refl

pending_run : get asked.pending "q1" ≡ some expected
unfolding send_request is_capability get put has
pending_run = refl

unique_run : NoDup (keys asked.pending)
unfolding send_request is_capability get put has keys
unique_run = ground arith

none_run : has {A = String} [] "q1" ≡ false
unfolding has
none_run = refl

run : Run ("q1" ∷ []) asked
run = sent connections "a1" "host.metrics" 5 "q1" 1000 none_run send_run begin

answered_once_example :
    waiting "q1" (handle (replied 7 reply) asked) + answered "q1" (handle (replied 7 reply) asked)
    ≡ (if has {A = String} ("q1" ∷ []) "q1" then 1 else 0)
answered_once_example =
    answered_once ("q1" ∷ []) (handle (replied 7 reply) asked) "q1" (happened (replied 7 reply) run)

settle-cases_example :
    ((p : PendingRequest) × (get asked.pending "q1" ≡ some p)
      × (p.socket ≡ 7)
      × Replied reply p asked (settle 7 reply asked))
    ⊎ (((p : PendingRequest) → get asked.pending "q1" ≡ some p → p.socket ≢ 7)
        × (settle 7 reply asked ≡ (false, asked)))
settle-cases_example = settle-cases 7 reply asked

abandon_requests_iff_example :
    (get (abandon 7 asked).pending "q1" ≡ some expected)
    ↔ ((get asked.pending "q1" ≡ some expected) × (expected.socket ≢ 7))
abandon_requests_iff_example = abandon_requests_iff 7 asked "q1" expected unique_run

abbrev stream : RunningStream
stream = record {
  agent_id = "a1";
  capability = "container.logs";
  request_id = "q2";
  stream_id = "s2";
  socket = 7;
  next = 3;
  acknowledged = true;
  ended = false;
}

abbrev streaming : Dispatch
streaming = record idle { streams = ("q2", stream) ∷ [] }

stream-IsOn : IsOn 7 "q2" "s2" streaming stream
unfolding get
stream-IsOn = record { found = refl; runs = refl; named = refl; same = refl }
