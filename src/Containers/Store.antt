-- ===== src/Containers/Store.antt =====
-- api/src/database/schema.ts: the tables that container mutations read and write, with the columns
-- that the modelled code uses. Times are milliseconds; a jsonb conflict keeps its Docker ids.
use dockplane.Base.{ℕ, String, Bool, true, false, Option, List}

-- `container_desired_configs.state`, a text that the code writes as one of these.
pub data ConfigState : Type 0 where
  current pending : ConfigState

pub data ActionStatus : Type 0 where
  queued running succeeded failed timed_out cancelled : ActionStatus

pub record ContainerRow : Type 0 where
  pub id : String
  pub host_id : String
  pub docker_id : Option String
  pub name : String
  pub stack_id : Option String
  pub identity_conflict : Option (List String)
  pub observed_desired_config_id : Option String
  pub updated_at : ℕ

pub record ConfigRow : Type 0 where
  pub id : String
  pub container_id : String
  pub state : ConfigState
  pub action_id : Option String
  pub updated_at : ℕ

pub record ActionRow : Type 0 where
  pub id : String
  pub capability : String
  pub target_type : Option String
  pub target_id : Option String
  pub status : ActionStatus
  pub completed_at : Option ℕ
  pub error_code : Option String

-- A row of `stack_deployments` or of `stack_operations`, with its status as written.
pub record AttemptRow : Type 0 where
  pub id : String
  pub stack_id : String
  pub status : String

pub record StackRow : Type 0 where
  pub id : String
  pub status : String

pub record AuditRow : Type 0 where
  pub action : String
  pub result : String
  pub actor_label : String
  pub target_type : String
  pub target_id : String
  pub target_label : String
  pub reason_code : Option String

pub record Database : Type 0 where
  pub containers : List ContainerRow
  pub configs : List ConfigRow
  pub actions : List ActionRow
  pub deployments : List AttemptRow
  pub operations : List AttemptRow
  pub stacks : List StackRow
  pub audit : List AuditRow

abbrev pub is_pending : ConfigState → Bool
is_pending pending = true
is_pending current = false

abbrev pub is_current : ConfigState → Bool
is_current pending = false
is_current current = true

-- `inArray(actions.status, ['queued', 'running'])`
abbrev pub is_unfinished : ActionStatus → Bool
is_unfinished queued = true
is_unfinished running = true
is_unfinished _ = false
