-- ===== src/Stacks/Plan.antt =====
-- api/src/stacks/stack-plan.ts: the plan that an agent is asked to deploy, from the compiled
-- Compose file. `J` stands for the variables,
-- ports and labels, which are handed on as they are.
pub mod Resolved
mod Tests
use dockplane.Base.{
  ℕ, String, Bool, true, false, Option, none, some, List, [], ◌∷◌, map, ◌==◌, nat_eq, string_eq,
  or_else, is_blank, has, get_last, Result, ok, err, AppError, ◌>>=◌, if◌then◌else◌,
}

-- A network or a volume of the plan.
pub record PlanResource : Type 0 where
  pub name : String
  pub docker_name : Option String
  pub driver : Option String

pub data MountType : Type 0 where
  volume bind : MountType

pub record Mount : Type 0 where
  pub type : MountType
  pub source : String
  pub target : String
  pub read_only : Option Bool

pub record Healthcheck : Type 0 where
  pub disabled : Bool
  pub test : List String
  pub interval_ms : Option ℕ
  pub timeout_ms : Option ℕ
  pub start_period_ms : Option ℕ
  pub retries : Option ℕ

pub record PlanService (J : Type 0) : Type 0 where
  pub service_name : String
  pub container_name : Option String
  pub image : String
  pub hostname : Option String
  pub command : Option (List String)
  pub entrypoint : Option (List String)
  pub environment : Option (List J)
  pub ports : Option (List J)
  pub mounts : Option (List Mount)
  pub networks : Option (List String)
  pub restart_policy : String
  pub labels : Option J
  pub healthcheck : Option Healthcheck
  pub depends_on : Option (List String)

pub record StackDeploymentPlan (J : Type 0) : Type 0 where
  pub project_name : String
  pub networks : List PlanResource
  pub volumes : List PlanResource
  pub services : List (PlanService J)

pub record AgentNetwork : Type 0 where
  pub name : String
  pub docker_name : String
  pub driver : Option String

pub record AgentVolume : Type 0 where
  pub name : String
  pub docker_name : String
  pub driver : Option String
  pub must_exist : Bool

pub record AgentHealthcheck : Type 0 where
  pub test : List String
  pub interval_ms : Option ℕ
  pub timeout_ms : Option ℕ
  pub start_period_ms : Option ℕ
  pub retries : Option ℕ

-- The specification of a service's container.
pub record AgentSpec (J : Type 0) : Type 0 where
  pub name : String
  pub image : String
  pub hostname : Option String
  pub command : Option (List String)
  pub entrypoint : Option (List String)
  pub env : List J
  pub ports : List J
  pub mounts : List Mount
  pub networks : List String
  pub restart_policy : String
  pub labels : Option J
  pub healthcheck : Option AgentHealthcheck

pub record AgentStackService (J : Type 0) : Type 0 where
  pub service_name : String
  pub container_id : String
  pub container_name : String
  pub depends_on : Option (List String)
  pub spec : AgentSpec J

pub record AgentStackPlan (J : Type 0) : Type 0 where
  pub plan_version : ℕ
  pub stack_id : String
  pub revision_id : String
  pub project_name : String
  pub networks : List AgentNetwork
  pub volumes : List AgentVolume
  pub services : List (AgentStackService J)

abbrev pub stack_plan_version : ℕ
stack_plan_version = 2

abbrev pub unnamed_service : AppError
unnamed_service = record {
  code = "STACK_CONFIGURATION_INVALID";
  message = "This build cannot deploy the compiled plan: a service has no container name.";
  status = 500;
}

abbrev pub not_prepared : AppError
not_prepared = record {
  code = "STACK_DEPLOYMENT_FAILED";
  message = "This deployment could not be prepared.";
  status = 500;
}

-- `driver` and the like are left out when they are empty.
abbrev pub when_given : Option String → Option String
when_given text = if is_blank text then none else text

abbrev pub when_any : Option (List String) → Option (List String)
when_any none = none
when_any (some []) = none
when_any (some (x ∷ xs)) = some (x ∷ xs)

abbrev pub when_positive : Option ℕ → Option ℕ
when_positive none = none
when_positive (some n) = if n == 0 then none else some n

-- `new Map(resources.map((r) => [r.name, r.dockerName ?? r.name])).get(name)`
unfoldable pub docker_name_of : List PlanResource → String → Option String
docker_name_of resources name = elim (get_last (λ r. r.name) name resources) [
  | none ↦ none
  | some r ↦ some (or_else r.docker_name r.name)
]

unfoldable pub mount_for : List PlanResource → Mount → Mount
mount_for volumes mount = record mount {
  source = elim mount.type [
    | volume ↦ or_else (docker_name_of volumes mount.source) mount.source
    | bind ↦ mount.source
  ];
}

unfoldable pub healthcheck_for : Healthcheck → AgentHealthcheck
healthcheck_for check =
    if check.disabled
    then record {
      test = "NONE" ∷ [];
      interval_ms = none;
      timeout_ms = none;
      start_period_ms = none;
      retries = none;
    }
    else record {
      test = check.test;
      interval_ms = when_positive check.interval_ms;
      timeout_ms = when_positive check.timeout_ms;
      start_period_ms = when_positive check.start_period_ms;
      retries = when_positive check.retries;
    }

unfoldable pub healthcheck_or_none : Option Healthcheck → Option AgentHealthcheck
unfolding healthcheck_for
healthcheck_or_none none = none
healthcheck_or_none (some check) = some (healthcheck_for check)

-- The name of a service's container, by the last service of the name.
unfoldable pub name_of : List (String × String) → String → String
name_of names service = elim (get_last (λ n. n.0) service names) [
  | none ↦ ""
  | some named ↦ named.1
]

module _ {J : Type 0} where
  -- `containerNames`
  unfoldable pub container_names : List (PlanService J) → Result (List (String × String))
  container_names [] = ok []
  container_names (service ∷ services) =
      if is_blank service.container_name
      then err unnamed_service
      else container_names services >>= λ rest.
          ok ((service.service_name, or_else service.container_name "") ∷ rest)

  unfoldable pub spec_of : StackDeploymentPlan J → String → PlanService J → AgentSpec J
  unfolding mount_for healthcheck_or_none
  spec_of plan container_name service = record {
    name = container_name;
    image = service.image;
    hostname = when_given service.hostname;
    command = when_any service.command;
    entrypoint = when_any service.entrypoint;
    env = or_else service.environment [];
    ports = or_else service.ports [];
    mounts = map (mount_for plan.volumes) (or_else service.mounts []);
    networks =
        map (λ network. or_else (docker_name_of plan.networks network) network)
          (or_else service.networks []);
    restart_policy = service.restart_policy;
    labels = service.labels;
    healthcheck = healthcheck_or_none service.healthcheck;
  }

  -- One service; `containers` are the container resources by service.
  unfoldable pub agent_service :
      StackDeploymentPlan J
      → List (String × String)
      → (String → Option String)
      → PlanService J
      → Result (AgentStackService J)
  agent_service plan names containers service =
      if is_blank (containers service.service_name)
      then err not_prepared
      else ok (record {
        service_name = service.service_name;
        container_id = or_else (containers service.service_name) "";
        container_name = name_of names service.service_name;
        depends_on = when_any service.depends_on;
        spec = spec_of plan (name_of names service.service_name) service;
      })

  unfoldable pub agent_services :
      StackDeploymentPlan J
      → List (String × String)
      → (String → Option String)
      → List (PlanService J)
      → Result (List (AgentStackService J))
  agent_services plan names containers [] = ok []
  agent_services plan names containers (service ∷ services) =
      agent_service plan names containers service >>= λ s.
      agent_services plan names containers services >>= λ rest. ok (s ∷ rest)

  unfoldable pub agent_network : StackDeploymentPlan J → PlanResource → AgentNetwork
  agent_network plan network = record {
    name = network.name;
    docker_name = or_else (docker_name_of plan.networks network.name) "";
    driver = when_given network.driver;
  }

  unfoldable pub agent_volume : StackDeploymentPlan J → List String → PlanResource → AgentVolume
  agent_volume plan existing_volumes resource = record {
    name = resource.name;
    docker_name = or_else (docker_name_of plan.volumes resource.name) "";
    driver = when_given resource.driver;
    must_exist = has existing_volumes resource.name;
  }

  unfoldable pub agent_plan_for :
      String
      → String
      → StackDeploymentPlan J
      → (String → Option String)
      → List String
      → Result (AgentStackPlan J)
  agent_plan_for stack_id revision_id plan containers existing_volumes =
      container_names plan.services >>= λ names.
      agent_services plan names containers plan.services >>= λ services. ok (record {
        plan_version = stack_plan_version;
        stack_id = stack_id;
        revision_id = revision_id;
        project_name = plan.project_name;
        networks = map (agent_network plan) plan.networks;
        volumes = map (agent_volume plan existing_volumes) plan.volumes;
        services = services;
      })
