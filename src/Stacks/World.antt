-- ===== src/Stacks/World.antt =====
-- api/src/database/schema.ts: the tables that the stack services read and write, with the columns
-- that they use, and what the services hold besides them.
use dockplane.Base.{ℕ, String, Option, List, AppError}
use dockplane.Containers.Store.{AuditRow}
use dockplane.Operations.Registry.{MutationRegistry}
use dockplane.Stacks.Lifecycle.{RuntimeFingerprint}
use dockplane.Version.Codes.{Codes}

pub record StackRow : Type 0 where
  pub id : String
  pub host_id : String
  pub name : String
  pub status : String
  pub latest_revision_id : Option String
  pub current_revision_id : Option String

pub record HostRow : Type 0 where
  pub id : String
  pub archived_at : Option ℕ

pub record AgentRow : Type 0 where
  pub id : String
  pub host_id : String
  pub version : Option Codes
  pub revoked_at : Option ℕ

pub record ContainerRow : Type 0 where
  pub id : String
  pub stack_id : Option String
  pub stack_service : Option String
  pub docker_id : Option String
  pub state : Option String
  pub stack_revision_id : Option String

pub record Summary : Type 0 where
  pub services : List String
  pub volumes : List String
  pub depends_on : List (String × List String)

pub record RevisionRow : Type 0 where
  pub id : String
  pub stack_id : String
  pub summary : Option Summary

pub record DeploymentRow : Type 0 where
  pub id : String
  pub stack_id : String
  pub status : String

-- One service in the detail of an operation.
pub record ServiceDetail : Type 0 where
  pub service_name : String
  pub container_id : String
  pub state : Option String

pub record OperationRow : Type 0 where
  pub id : String
  pub stack_id : String
  pub revision_id : String
  pub type : String
  pub status : String
  pub action_id : Option String
  pub fingerprint : Option (List RuntimeFingerprint)
  pub detail : Option (List ServiceDetail)
  pub failure_code : Option String
  pub resolved_at : Option ℕ

pub record ActionRow : Type 0 where
  pub id : String
  pub capability : String
  pub target_id : String
  pub status : String
  pub completed_at : Option ℕ
  pub error_code : Option String

pub record EventRow : Type 0 where
  pub type : String
  pub severity : Option String
  pub resource : String
  pub message : String
  pub correlation_id : String

pub record DeployedService : Type 0 where
  pub service_name : String
  pub container_id : String
  pub depends_on : List String

-- The payload of a request about the containers of a deployed revision.
pub record LifecyclePlan : Type 0 where
  pub stack_id : String
  pub revision_id : String
  pub services : List DeployedService

pub record AgentRequest : Type 0 where
  pub agent_id : String
  pub capability : String
  pub plan : LifecyclePlan

-- The tables and what the services hold besides them; `requests` are those sent to agents.
pub record World : Type 0 where
  pub stacks : List StackRow
  pub hosts : List HostRow
  pub agents : List AgentRow
  pub connected : List String
  pub revisions : List RevisionRow
  pub containers : List ContainerRow
  pub deployments : List DeploymentRow
  pub operations : List OperationRow
  pub actions : List ActionRow
  pub registry : MutationRegistry
  pub audit : List AuditRow
  pub events : List EventRow
  pub requests : List AgentRequest

-- What the request to the agent comes to: an answer, an `AppError`, or another error.
pub data Reply : Type 0 where
  answered broken : Reply
  refused : AppError → Reply
