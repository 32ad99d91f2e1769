-- ===== src/Stacks/Plan/Resolved.antt =====
-- When a plan can be prepared, and that each service and resource is then called by its own name.
use dockplane.Base.{
  String, ◌≡◌, ◌≢◌, ◌↔◌, refl, sym, ap, subst, ◌∙◌, false, Option, some, List, [], ◌∷◌, map, All,
  All-map, All-of_In, In, In-map_iff, NoDup, ==_iff, string_eq, or_else, is_blank, has, Any,
  get_last, get_last-eq-none_iff, ok, Result-cases, inl, inr, arith,
}
use dockplane.Stacks.Plan.{
  PlanService, PlanResource, StackDeploymentPlan, AgentStackService, AgentStackPlan, AgentNetwork,
  AgentVolume, container_names, name_of, docker_name_of, spec_of, agent_service, agent_services,
  agent_network, agent_volume, agent_plan_for, stack_plan_version, when_given, when_any,
}

Any-same :
    {A B : Type 0} (key : A → B) (xs : List A) (x : A) (k : B)
    → In x xs
    → key x ≡ k
    → Any (λ y. key y ≡ k) xs
Any-same key [] x k i same = absurd i
Any-same key (y ∷ ys) x k (inl e) same = inl (ap key e ∙ same)
Any-same key (y ∷ ys) x k (inr later) same = inr (Any-same key ys x k later same)

-- Where no key comes twice, a map finds each element by its key.
get_last-own :
    {A : Type 0} (key : A → String) (xs : List A) (x : A)
    → NoDup (map key xs)
    → In x xs
    → get_last key (key x) xs ≡ some x
unfolding get_last
get_last-own key [] x d i = absurd i
get_last-own key (y ∷ ys) x (new, d) (inl e) =
    let apart : All (λ z. key z ≢ key y) ys =
      All-of_In (λ z. key z ≢ key y) ys
        (λ z i same. new ((In-map_iff key (key y) ys).1 (Any-same key ys z (key y) i same))) in
    let none_later = (get_last-eq-none_iff key (key y) ys).1 apart in
    subst (λ a. get_last key (key a) (y ∷ ys) ≡ some a) e
      (ground (arith, none_later, ==_iff (key y) (key y)))
get_last-own key (y ∷ ys) x (new, d) (inr later) = ground (arith, get_last-own key ys x d later)

map-own :
    {A B : Type 0} (f g : A → B) (xs : List A)
    → ((x : A) → In x xs → f x ≡ g x)
    → map f xs ≡ map g xs
map-own f g [] h = refl
map-own f g (x ∷ xs) h = rw (h x (inl refl), map-own f g xs (λ y i. h y (inr i))) refl

docker_name-own :
    (resources : List PlanResource) (r : PlanResource)
    → NoDup (map (λ r. r.name) resources)
    → In r resources
    → docker_name_of resources r.name ≡ some (or_else r.docker_name r.name)
unfolding docker_name_of
docker_name-own resources r d i =
    rw (docker_name_of, get_last-own (λ r. r.name) resources r d i) refl

map-twice :
    {A B C : Type 0} (f : B → C) (g : A → B) (xs : List A)
    → map f (map g xs) ≡ map (λ x. f (g x)) xs
map-twice f g [] = refl
map-twice f g (x ∷ xs) = rw (map-twice f g xs) refl

In-image : {A B : Type 0} (f : A → B) (xs : List A) (x : A) → In x xs → In (f x) (map f xs)
In-image f xs x i = (In-map_iff f (f x) xs).1 (Any-same f xs x (f x) i refl)

abbrev pub direct_network : PlanResource → AgentNetwork
direct_network n = record {
  name = n.name;
  docker_name = or_else n.docker_name n.name;
  driver = when_given n.driver;
}

abbrev pub direct_volume : List String → PlanResource → AgentVolume
direct_volume existing v = record {
  name = v.name;
  docker_name = or_else v.docker_name v.name;
  driver = when_given v.driver;
  must_exist = has existing v.name;
}

All-both :
    {A : Type 0} (P Q : A → Type 0) (xs : List A) → All P xs → All Q xs → All (λ x. P x × Q x) xs
All-both P Q [] p q = tt
All-both P Q (x ∷ xs) (p, ps) (q, qs) = ((p, q), All-both P Q xs ps qs)

module _ {J : Type 0} where
  -- The service has the name of its container, and a container was allocated for it.
  abbrev pub IsPrepared : (String → Option String) → PlanService J → Type 0
  IsPrepared containers service =
      (is_blank service.container_name ≡ false)
      × (is_blank (containers service.service_name) ≡ false)

  own_name : PlanService J → String
  own_name s = or_else s.container_name ""

  names_ok :
      (services : List (PlanService J))
      → All (λ s. is_blank s.container_name ≡ false) services
      → container_names services
        ≡ ok (map (λ s. (s.service_name, or_else s.container_name "")) services)
  unfolding container_names
  names_ok [] h = refl
  names_ok (s ∷ services) (p, h) = ground (arith, p, names_ok services h)

  names_named :
      (services : List (PlanService J)) (names : List (String × String))
      → container_names services ≡ ok names
      → All (λ s. is_blank s.container_name ≡ false) services
  unfolding container_names
  names_named [] names h = tt
  names_named (s ∷ services) names h = elim (Result-cases (container_names services)) [
    | inl (rest, made) ↦ ground (arith, made, names_named services rest made)
    | inr (e, refusal) ↦ ground (arith, refusal)
  ]

  -- The service with a name for its container.
  abbrev named_service :
      StackDeploymentPlan J
      → (String → Option String)
      → String
      → PlanService J
      → AgentStackService J
  named_service plan containers name s = record {
    service_name = s.service_name;
    container_id = or_else (containers s.service_name) "";
    container_name = name;
    depends_on = when_any s.depends_on;
    spec = spec_of plan name s;
  }

  -- The service as its own names and its own container describe it.
  abbrev pub direct_service :
      StackDeploymentPlan J → (String → Option String) → PlanService J → AgentStackService J
  direct_service plan containers s = named_service plan containers (or_else s.container_name "") s

  services_ok :
      (plan : StackDeploymentPlan J) (names : List (String × String))
      (containers : String → Option String) (services : List (PlanService J))
      → All (λ s. is_blank (containers s.service_name) ≡ false) services
      → agent_services plan names containers services
        ≡ ok (map (λ s. named_service plan containers (name_of names s.service_name) s) services)
  unfolding agent_services agent_service
  services_ok plan names containers [] h = refl
  services_ok plan names containers (s ∷ services) (p, h) =
      rw (p, services_ok plan names containers services h) refl

  services_allocated :
      (plan : StackDeploymentPlan J) (names : List (String × String))
      (containers : String → Option String) (services : List (PlanService J))
      (out : List (AgentStackService J))
      → agent_services plan names containers services ≡ ok out
      → All (λ s. is_blank (containers s.service_name) ≡ false) services
  unfolding agent_services agent_service
  services_allocated plan names containers [] out h = tt
  services_allocated plan names containers (s ∷ services) out h =
      elim (Result-cases (agent_services plan names containers services)) [
        | inl (rest, made) ↦
            ground (arith, made, services_allocated plan names containers services rest made)
        | inr (e, refusal) ↦ ground (arith, refusal)
      ]

  name_of-own :
      (services : List (PlanService J)) (s : PlanService J)
      → NoDup (map (λ s. s.service_name) services)
      → In s services
      → name_of (map (λ s. (s.service_name, or_else s.container_name "")) services) s.service_name
        ≡ or_else s.container_name ""
  unfolding name_of
  name_of-own services s d i =
      let names : List (String × String) =
        map (λ s. (s.service_name, or_else s.container_name "")) services in
      let once : NoDup (map (λ n. n.0) names) =
        subst NoDup
          (sym (
            map-twice (λ (n : String × String). n.0)
              (λ s. (s.service_name, or_else s.container_name "")) services))
          d in
      let there : In (s.service_name, or_else s.container_name "") names =
        In-image (λ s. (s.service_name, or_else s.container_name "")) services s i in
      rw
        (
          name_of,
          get_last-own (λ n. n.0) names (s.service_name, or_else s.container_name "") once there,
        )
        refl

  -- A plan is prepared exactly when every service has the name of its container and a container
  -- that was allocated for it.
  pub agent_plan_for_iff :
      (stack_id revision_id : String) (plan : StackDeploymentPlan J)
      (containers : String → Option String) (existing : List String)
      → ((prepared : AgentStackPlan J) × (agent_plan_for stack_id revision_id plan containers
              existing
            ≡ ok prepared))
        ↔ All (IsPrepared containers) plan.services
  unfolding agent_plan_for
  agent_plan_for_iff stack_id revision_id plan containers existing = (
    λ (prepared, h). elim (Result-cases (container_names plan.services)) [
      | inr (e, refusal) ↦ ground (arith, refusal)
      | inl (names, made) ↦
          elim (Result-cases (agent_services plan names containers plan.services)) [
            | inr (e, refusal) ↦ ground (arith, made, refusal)
            | inl (out, served) ↦
                All-both _ _ plan.services (names_named plan.services names made)
                  (services_allocated plan names containers plan.services out served)
          ]
    ],
    λ h.
        let named = names_ok plan.services (All-map (λ s p. p.0) plan.services h) in
        let served =
          services_ok plan (map (λ s. (s.service_name, or_else s.container_name "")) plan.services)
            containers plan.services (All-map (λ s p. p.1) plan.services h) in
        elim (Result-cases (agent_plan_for stack_id revision_id plan containers existing)) [
          | inl made ↦ made
          | inr (e, refusal) ↦ ground (arith, named, served, refusal)
        ],
  )

  -- Where no name of a service, of a network or of a volume comes twice and every service is
  -- prepared, the plan for the agent has the services in their order, each with its own container
  -- and its own container's name, and each network and volume under its own name on the host, with
  -- the volumes in use marked.
  pub agent_plan_for-direct :
      (stack_id revision_id : String) (plan : StackDeploymentPlan J)
      (containers : String → Option String) (existing : List String)
      → NoDup (map (λ s. s.service_name) plan.services)
      → NoDup (map (λ n. n.name) plan.networks)
      → NoDup (map (λ v. v.name) plan.volumes)
      → All (IsPrepared containers) plan.services
      → agent_plan_for stack_id revision_id plan containers existing
        ≡ ok (record {
          plan_version = stack_plan_version;
          stack_id = stack_id;
          revision_id = revision_id;
          project_name = plan.project_name;
          networks = map direct_network plan.networks;
          volumes = map (direct_volume existing) plan.volumes;
          services = map (direct_service plan containers) plan.services;
        })
  unfolding agent_plan_for agent_network agent_volume
  agent_plan_for-direct stack_id revision_id plan containers existing ds dn dv h =
      let names = map (λ s. (s.service_name, or_else s.container_name "")) plan.services in
      let named = names_ok plan.services (All-map (λ s p. p.0) plan.services h) in
      let served =
        services_ok plan names containers plan.services (All-map (λ s p. p.1) plan.services h) in
      let services =
        map-own (λ s. named_service plan containers (name_of names s.service_name) s)
          (direct_service plan containers) plan.services
          (λ s i. rw (name_of-own plan.services s ds i) refl) in
      let networks =
        map-own (agent_network plan) direct_network plan.networks
          (λ n i. rw (agent_network, docker_name-own plan.networks n dn i) refl) in
      let volumes =
        map-own (agent_volume plan existing) (direct_volume existing) plan.volumes
          (λ v i. rw (agent_volume, docker_name-own plan.volumes v dv i) refl) in
      rw (named, served, services, networks, volumes) refl
