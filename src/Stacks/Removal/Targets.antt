-- ===== src/Stacks/Removal/Targets.antt =====
-- Which agent and which containers the queries of api/src/stacks/stack-delete.service.ts find.
use dockplane.Base.{
  String, Bool, true, false, ◌≡◌, ◌⊎◌, subst, refl, sym, ap, ◌∙◌, Option, none, some, Option-cases,
  Bool-cases, Result-cases, inl, inr, List, [], ◌∷◌, map, ◌==◌, ==_iff, string_eq, option_eq, ◌&&◌,
  is_some, is_none, is_blank, or_else, get_last-In, get_last-key, has, has_iff, filter, find,
  find-some, ok, throw_if, AppError, arith, In, All, Any,
}
use dockplane.Version.Attribution.{supports_stack_attribution, assert_stack_attribution}
use dockplane.Stacks.World.{AgentRow, Summary, World, DeployedService}
use dockplane.Stacks.Removal.Checks.{
  connected_agent, agent_of, containers_of, held_by, service_key, deployed_service, each_service,
  deployed_services, revision_of,
}

-- The agent of the host that is not revoked, is connected, and is of a version that names stacks.
abbrev pub IsReachable : World → String → AgentRow → Type 0
IsReachable w host_id agent =
    In agent w.agents
    × (agent.host_id ≡ host_id)
    × (agent.revoked_at ≡ none)
    × In agent.id w.connected
    × (supports_stack_attribution agent.version ≡ true)

-- The container of the service is on the host, and the stack's.
abbrev pub IsHeld : World → String → DeployedService → Type 0
IsHeld w stack_id s =
    Any
      (λ c.
        (c.id ≡ s.container_id)
        × (c.stack_id ≡ some stack_id)
        × (c.stack_service ≡ some s.service_name)
        × (is_blank c.docker_id ≡ false))
      w.containers

-- The services that the revision describes, in their order, each with its container.
abbrev pub Described : World → String → String → List DeployedService → Type 0
Described w stack_id revision services =
    ((revision_of w revision ≡ none) × (services ≡ []))
    ⊎ ((summary : Summary) × (revision_of w revision ≡ some summary)
        × (map (λ s. s.service_name) services ≡ summary.services)
        × All (IsHeld w stack_id) services)

find-In : {A : Type 0} (p : A → Bool) (xs : List A) (a : A) → find p xs ≡ some a → In a xs
find-In p [] a h = absurd (ground (arith, h))
find-In p (x ∷ xs) a h = ground (arith, h, find-In p xs a)

throw-ok : (b : Bool) (e : AppError) → throw_if b e ≡ ok tt → b ≡ false
throw-ok true e h = absurd (ground (arith, h))
throw-ok false e h = refl

pub connected_agent-IsReachable :
    (w : World) (host_id agent_id : String)
    → connected_agent w host_id ≡ ok agent_id
    → (agent : AgentRow) × (agent.id ≡ agent_id) × IsReachable w host_id agent
unfolding connected_agent agent_of assert_stack_attribution
connected_agent-IsReachable w host_id agent_id h = elim (Option-cases (agent_of w host_id)) [
  | inl missing ↦ absurd (ground (arith, rw (connected_agent, missing) at h))
  | inr (agent, found) ↦
      let here = find-In (λ a. a.host_id == host_id && is_none a.revoked_at) w.agents agent found in
      let mine =
        find-some (λ a. a.host_id == host_id && is_none a.revoked_at) w.agents agent found in
      elim (Bool-cases (supports_stack_attribution agent.version)) [
        | inr old ↦
            absurd (ground (arith, rw (connected_agent, found, assert_stack_attribution, old) at h))
        | inl recent ↦ elim (Bool-cases (has w.connected agent.id)) [
          | inr off ↦ absurd (
              ground
                (arith, rw (connected_agent, found, assert_stack_attribution, recent, off) at h))
          | inl on ↦ (
            agent,
            ground (arith, rw (connected_agent, found, assert_stack_attribution, recent, on) at h),
            (
              here,
              ground (arith, mine, ==_iff agent.host_id host_id),
              ground (arith, mine),
              (has_iff w.connected agent.id).0 on,
              recent,
            ),
          )
        ]
      ]
]

In-filter :
    {A : Type 0} (p : A → Bool) (xs : List A) (a : A) → In a (filter p xs) → (p a ≡ true) × In a xs
In-filter p [] a i = absurd i
In-filter p (x ∷ xs) a i = elim (Bool-cases (p x)) [
  | inl kept ↦ elim (rw kept at i) [
    | inl e ↦ (subst (λ y. p y ≡ true) e kept, inl e)
    | inr later ↦ let (q, j) = In-filter p xs a later in (q, inr j)
  ]
  | inr out ↦ let (q, j) = In-filter p xs a (rw out at i) in (q, inr j)
]

Any-of_In : {A : Type 0} (P : A → Type 0) (xs : List A) (a : A) → P a → In a xs → Any P xs
Any-of_In P [] a p i = absurd i
Any-of_In P (x ∷ xs) a p (inl e) = inl (subst P (sym e) p)
Any-of_In P (x ∷ xs) a p (inr later) = inr (Any-of_In P xs a p later)

named-service :
    (o : Option String) (service : String)
    → is_some o ≡ true
    → or_else o "" ≡ service
    → o ≡ some service
named-service none service h e = absurd (ground (arith, h))
named-service (some s) service h e = ap (λ t. some t) e

deployed_service-IsHeld :
    (w : World) (stack_id : String) (summary : Summary) (service : String) (s : DeployedService)
    → deployed_service w stack_id summary service ≡ ok s
    → (s.service_name ≡ service) × IsHeld w stack_id s
unfolding deployed_service held_by containers_of
deployed_service-IsHeld w stack_id summary service s h =
    elim (Option-cases (held_by (containers_of w stack_id) service)) [
      | inl missing ↦ absurd (ground (arith, rw (deployed_service, missing) at h))
      | inr (row, found) ↦ elim (Bool-cases (is_blank row.docker_id)) [
        | inl blank ↦ absurd (ground (arith, rw (deployed_service, found, blank) at h))
        | inr there ↦
            let given = rw (deployed_service, found, there) at h in
            let named = filter (λ c. is_some c.stack_service) (containers_of w stack_id) in
            let (has_name, mine) =
              In-filter (λ c. is_some c.stack_service) (containers_of w stack_id) row
                (get_last-In service_key service named row found) in
            let (owned, here) =
              In-filter (λ c. c.stack_id == some stack_id) w.containers row mine in
            let is_service : row.stack_service ≡ some service =
              named-service row.stack_service service has_name
                (get_last-key service_key service named row found) in
            let of_stack : row.stack_id ≡ some stack_id =
              (==_iff row.stack_id (some stack_id)).0 owned in
            let called : service ≡ s.service_name = ground (arith, given) in
            let held : row.id ≡ s.container_id = ground (arith, given) in
            (
              sym called,
              Any-of_In _ w.containers row
                  (held, of_stack, is_service ∙ ap (λ t. some t) called, there) here,
            )
      ]
    ]

each_service-Described :
    (w : World) (stack_id : String) (summary : Summary) (names : List String)
    (services : List DeployedService)
    → each_service w stack_id summary names ≡ ok services
    → (map (λ s. s.service_name) services ≡ names) × All (IsHeld w stack_id) services
unfolding each_service
each_service-Described w stack_id summary [] services h =
    let same : [] ≡ services = ground (arith, h) in
    subst (λ l. (map (λ s. s.service_name) l ≡ []) × All (IsHeld w stack_id) l) same (refl, tt)
each_service-Described w stack_id summary (name ∷ names) services h =
    elim (Result-cases (deployed_service w stack_id summary name)) [
      | inr (e, refusal) ↦ absurd (ground (arith, rw refusal at h))
      | inl (s, one) ↦ elim (Result-cases (each_service w stack_id summary names)) [
        | inr (e, refusal) ↦ absurd (ground (arith, rw (one, refusal) at h))
        | inl (rest, others) ↦
            let (called, held) = deployed_service-IsHeld w stack_id summary name s one in
            let (names_of, all_held) =
              each_service-Described w stack_id summary names rest others in
            let same : s ∷ rest ≡ services = ground (arith, rw (one, others) at h) in
            subst (λ l. (map (λ s. s.service_name) l ≡ name ∷ names) × All (IsHeld w stack_id) l)
              same ((λ i. called i ∷ names_of i), (held, all_held))
      ]
    ]

pub deployed_services-Described :
    (w : World) (stack_id revision : String) (services : List DeployedService)
    → deployed_services w stack_id revision ≡ ok services
    → Described w stack_id revision services
unfolding deployed_services
deployed_services-Described w stack_id revision services h =
    elim (Option-cases (revision_of w revision)) [
      | inl missing ↦ inl (missing, ground (arith, rw (deployed_services, missing) at h))
      | inr (summary, found) ↦
          let (names, held) =
            each_service-Described w stack_id summary summary.services services
              (rw (deployed_services, found) at h) in
          inr (summary, found, names, held)
    ]
