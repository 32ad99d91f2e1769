-- ===== src/Auth/Roles.antt =====
-- api/src/rbac/rbac.service.ts and permissions.ts: what a user may do. The names of the roles,
-- which no guard reads, are left out.
pub mod Granted
use dockplane.Base.{
  String, Bool, true, false, not, ◌&&◌, Option, none, some, List, [], ◌∷◌, ◌++◌, ◌==◌, string_eq,
  if◌then◌else◌, filter, map, has, set_of, is_blank,
}

pub record UserRole : Type 0 where
  pub user_id : String
  pub role_id : String

pub record Role : Type 0 where
  pub id : String
  pub name : String

pub record RolePermission : Type 0 where
  pub role_id : String
  pub permission_id : String

pub record PermissionRow : Type 0 where
  pub id : String
  pub key : String

pub record RoleTables : Type 0 where
  pub user_roles : List UserRole
  pub roles : List Role
  pub role_permissions : List RolePermission
  pub permissions : List PermissionRow

abbrev pub permission_keys : List String
permission_keys =
    "hosts.read" ∷ "hosts.archive" ∷ "containers.read" ∷ "containers.start" ∷ "containers.stop"
    ∷ "containers.restart" ∷ "containers.logs" ∷ "containers.create" ∷ "containers.update"
    ∷ "containers.delete" ∷ "compose.read" ∷ "stacks.read" ∷ "stacks.create" ∷ "stacks.update"
    ∷ "stacks.deploy" ∷ "stacks.delete" ∷ "agents.read" ∷ "agents.enroll" ∷ "agents.revoke"
    ∷ "audit.read" ∷ "users.read" ∷ "users.manage" ∷ "roles.read" ∷ "sessions.read"
    ∷ "sessions.revoke" ∷ []

unfoldable pub is_known_permission : String → Bool
is_known_permission key = has permission_keys key

flat_map : {A B : Type 0} → (A → List B) → List A → List B
flat_map f [] = []
flat_map f (x ∷ xs) = f x ++ flat_map f xs

-- A left join gives one row without a match where there is none.
left_join : List (Option String) → List (Option String)
left_join [] = none ∷ []
left_join (x ∷ xs) = x ∷ xs

unfoldable pub keys_of_permission : RoleTables → RolePermission → List (Option String)
unfolding left_join
keys_of_permission t rp =
    left_join (map (λ p. some p.key) (filter (λ p. p.id == rp.permission_id) t.permissions))

unfoldable pub keys_of_role : RoleTables → Role → List (Option String)
unfolding left_join flat_map
keys_of_role t r =
    left_join
      (flat_map (keys_of_permission t) (filter (λ rp. rp.role_id == r.id) t.role_permissions))

-- The column `permission` of the query's rows.
unfoldable pub permission_rows : RoleTables → String → List (Option String)
unfolding flat_map
permission_rows t user =
    flat_map (λ ur. flat_map (keys_of_role t) (filter (λ r. r.id == ur.role_id) t.roles))
      (filter (λ ur. ur.user_id == user) t.user_roles)

unfoldable pub known_keys : List (Option String) → List String
known_keys [] = []
known_keys (none ∷ rows) = known_keys rows
known_keys (some key ∷ rows) =
    let rest = known_keys rows in
    if not (is_blank (some key)) && is_known_permission key then key ∷ rest else rest

-- The permissions of `authorizationFor`.
unfoldable pub permissions_for : RoleTables → String → List String
permissions_for t user = set_of (known_keys (permission_rows t user))
