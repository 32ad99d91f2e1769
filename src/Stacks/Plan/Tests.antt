-- ===== src/Stacks/Plan/Tests.antt =====
-- A plan with a web service and its database.
use dockplane.Base.{
  ℕ, String, ◌≡◌, ◌≢◌, ◌↔◌, refl, sym, Bool, true, false, Option, none, some, List, [], ◌∷◌, map,
  All, NoDup, In, ◌==◌, ==_iff, string_eq, or_else, is_blank, Result, ok, err, inl, inr, arith,
  if◌then◌else◌,
}
use dockplane.Stacks.Plan.{
  PlanService, PlanResource, Mount, Healthcheck, StackDeploymentPlan, AgentStackPlan,
  agent_plan_for, unnamed_service, not_prepared, volume, bind, stack_plan_version, healthcheck_for,
  docker_name_of, mount_for,
}
use dockplane.Stacks.Plan.Resolved.{
  IsPrepared, direct_service, direct_volume, agent_plan_for_iff, agent_plan_for-direct,
}

abbrev data_volume : PlanResource
data_volume = record { name = "data"; docker_name = some "shop_data"; driver = some "" }

abbrev mounted : Mount
mounted = record { type = volume; source = "data"; target = "/var/lib"; read_only = none }

abbrev host_path : Mount
host_path = record { type = bind; source = "data"; target = "/srv"; read_only = some true }

abbrev service : String → Option String → PlanService ℕ
service name container = record {
  service_name = name;
  container_name = container;
  image = "postgres:16";
  hostname = some "";
  command = some [];
  entrypoint = none;
  environment = none;
  ports = some (80 ∷ []);
  mounts = some (mounted ∷ host_path ∷ []);
  networks = some ("default" ∷ []);
  restart_policy = "always";
  labels = none;
  healthcheck = none;
  depends_on = some [];
}

abbrev plan_of : List (PlanService ℕ) → StackDeploymentPlan ℕ
plan_of services = record {
  project_name = "shop";
  networks = [];
  volumes = data_volume ∷ [];
  services = services;
}

abbrev shop : StackDeploymentPlan ℕ
shop = plan_of (service "web" (some "shop-web-1") ∷ service "db" (some "shop-db-1") ∷ [])

abbrev allocated : String → Option String
allocated name = some (if name == "web" then "c1" else "c2")

mount_for_volume : mount_for (data_volume ∷ []) mounted ≡ record mounted { source = "shop_data" }
unfolding mount_for docker_name_of dockplane.Base.get_last
mount_for_volume = refl

mount_for_bind : mount_for (data_volume ∷ []) host_path ≡ host_path
unfolding mount_for
mount_for_bind = refl

unnamed_refused :
    agent_plan_for "s" "r" (plan_of (service "web" (some "") ∷ [])) allocated []
    ≡ err unnamed_service
unfolding agent_plan_for dockplane.Stacks.Plan.container_names
unnamed_refused = refl

unallocated_refused : agent_plan_for "s" "r" shop (λ name. none) [] ≡ err not_prepared
unfolding agent_plan_for dockplane.Stacks.Plan.container_names dockplane.Stacks.Plan.agent_services
    dockplane.Stacks.Plan.agent_service
unallocated_refused = refl

shop-IsPrepared : All (IsPrepared allocated) shop.services
shop-IsPrepared = ((refl, refl), ((refl, refl), tt))

agent_plan_for_iff_example :
    ((prepared : AgentStackPlan ℕ) × (agent_plan_for "s" "r" shop allocated [] ≡ ok prepared))
    ↔ All (IsPrepared allocated) shop.services
agent_plan_for_iff_example = agent_plan_for_iff "s" "r" shop allocated []

names-NoDup : NoDup (map (λ s. s.service_name) shop.services)
names-NoDup = (
  λ i. elim i [
    | inl e ↦
        (let same : (◌==◌ {A = String} "db" "web") ≡ true = (==_iff {A = String} "db" "web").1 e in
          ground (arith, same))
    | inr later ↦ later
  ],
  ((λ i. i), tt),
)

agent_plan_for-direct_example :
    agent_plan_for "s" "r" shop allocated ("data" ∷ [])
    ≡ ok (record {
      plan_version = stack_plan_version;
      stack_id = "s";
      revision_id = "r";
      project_name = "shop";
      networks = [];
      volumes = map (direct_volume ("data" ∷ [])) (data_volume ∷ []);
      services = map (direct_service shop allocated) shop.services;
    })
agent_plan_for-direct_example =
    agent_plan_for-direct "s" "r" shop allocated ("data" ∷ []) names-NoDup tt ((λ i. i), tt)
      shop-IsPrepared
