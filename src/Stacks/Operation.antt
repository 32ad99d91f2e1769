-- ===== src/Stacks/Operation.antt =====
-- api/src/stacks/stack-lifecycle.service.ts: starting, stopping and restarting a stack, over the
-- tables of Stacks/World. What `containerDetail` tells before and after the request is given with
-- the rest, and is an error where it throws; `Date.parse` is the parameter `started_after`.
pub mod Checks
pub mod Running
pub mod Frames
pub mod Locks
pub mod Settled
pub mod Blocked
pub mod Applied
mod Tests
use dockplane.Base.{String, Option, List, Result}
use dockplane.Stacks.Lifecycle.{StackLifecycleKind, start, stop, restart, RuntimeFingerprint}
use dockplane.Stacks.World.{StackRow, ServiceDetail, LifecyclePlan}
use dockplane.Stacks.Removal.{Given}

-- What is read of a container's detail.
pub record ContainerDetail : Type 0 where
  pub docker_id : Option String
  pub started_at : Option String

pub record OperationGiven : Type 0 where
  pub given : Given
  pub detail_before : String → Result (Option ContainerDetail)
  pub detail_after : String → Result (Option ContainerDetail)

pub record StackService : Type 0 where
  pub service_name : String
  pub container_id : String
  pub docker_id : String
  pub depends_on : List String

-- What an operation that was dispatched is about.
pub record DispatchedOperation : Type 0 where
  pub operation : StackLifecycleKind
  pub stack : StackRow
  pub revision_id : String
  pub expected_services : List String
  pub fingerprint : Option (List RuntimeFingerprint)
  pub agent_id : String
  pub plan : LifecyclePlan

pub record ServiceState : Type 0 where
  pub service_name : String
  pub state : Option String

pub record StackOperationOutcome : Type 0 where
  pub operation_id : String
  pub stack_id : String
  pub operation : StackLifecycleKind
  pub services : List ServiceState

-- `CAPABILITY`, `RESULT_STATUS`, `FAILED`, `PAST`, `EVENT` and the names of the audit entries.
abbrev pub capability_of : StackLifecycleKind → String
capability_of start = "stack.start"
capability_of stop = "stack.stop"
capability_of restart = "stack.restart"

abbrev pub kind_name : StackLifecycleKind → String
kind_name start = "start"
kind_name stop = "stop"
kind_name restart = "restart"

abbrev pub result_status : StackLifecycleKind → String
result_status start = "running"
result_status stop = "stopped"
result_status restart = "running"

abbrev pub failed_code : StackLifecycleKind → String
failed_code start = "STACK_START_FAILED"
failed_code stop = "STACK_STOP_FAILED"
failed_code restart = "STACK_RESTART_FAILED"

abbrev pub past : StackLifecycleKind → String
past start = "started"
past stop = "stopped"
past restart = "restarted"

abbrev pub event_of : StackLifecycleKind → String
event_of start = "stack.started"
event_of stop = "stack.stopped"
event_of restart = "stack.restarted"

abbrev pub audit_requested : StackLifecycleKind → String
audit_requested start = "stack.start.requested"
audit_requested stop = "stack.stop.requested"
audit_requested restart = "stack.restart.requested"

abbrev pub audit_succeeded : StackLifecycleKind → String
audit_succeeded = event_of

abbrev pub audit_failed : StackLifecycleKind → String
audit_failed start = "stack.start.failed"
audit_failed stop = "stack.stop.failed"
audit_failed restart = "stack.restart.failed"
