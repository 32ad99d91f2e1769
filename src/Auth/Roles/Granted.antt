-- ===== src/Auth/Roles/Granted.antt =====
-- That what a user may do comes from the roles alone (api/src/rbac/rbac.service.ts).
use dockplane.Base.{
  String, ◌≡◌, refl, ◌≢◌, ◌↔◌, ◌⊎◌, true, false, Option, none, some, List, [], ◌∷◌, ◌++◌, arith,
  ◌==◌, ==_iff, string_eq, filter, map, In, Any, has, has_iff, In-set_of_iff,
}
use dockplane.Auth.Roles.{
  UserRole, Role, RolePermission, PermissionRow, RoleTables, is_known_permission, flat_map,
  left_join, keys_of_permission, keys_of_role, permission_rows, known_keys, permissions_for,
}

In-++_iff : {A : Type 0} (x : A) (xs ys : List A) → In x (xs ++ ys) ↔ (In x xs ⊎ In x ys)
In-++_iff x [] ys = ground arith
In-++_iff x (y ∷ xs) ys = ground (arith, In-++_iff x xs ys)

In-flat_map_iff :
    {A B : Type 0} (f : A → List B) (x : B) (xs : List A)
    → In x (flat_map f xs) ↔ Any (λ a. In x (f a)) xs
unfolding flat_map
In-flat_map_iff f x [] = ground arith
In-flat_map_iff f x (a ∷ xs) =
    ground (arith, In-++_iff x (f a) (flat_map f xs), In-flat_map_iff f x xs)

In-left_join_iff :
    (key : String) (rows : List (Option String))
    → In (some key) (left_join rows) ↔ In (some key) rows
unfolding left_join
In-left_join_iff key [] = ground arith
In-left_join_iff key (row ∷ rows) = ground arith

-- The permission `key` hangs on the row.
abbrev pub Names : RoleTables → String → RolePermission → Type 0
Names t key rp = Any (λ p. (p.id ≡ rp.permission_id) × (p.key ≡ key)) t.permissions

abbrev pub Gives : RoleTables → String → Role → Type 0
Gives t key r = Any (λ rp. (rp.role_id ≡ r.id) × Names t key rp) t.role_permissions

-- The user has a role that gives the permission.
abbrev pub IsAssigned : RoleTables → String → String → Type 0
IsAssigned t user key =
    Any (λ ur. (ur.user_id ≡ user) × Any (λ r. (r.id ≡ ur.role_id) × Gives t key r) t.roles)
      t.user_roles

keys_iff :
    (id key : String) (rows : List PermissionRow)
    → In (some key) (map (λ p. some p.key) (filter (λ p. p.id == id) rows))
      ↔ Any (λ p. (p.id ≡ id) × (p.key ≡ key)) rows
keys_iff id key [] = ground arith
keys_iff id key (p ∷ rows) = ground (arith, keys_iff id key rows, ==_iff p.id id)

keys_of_permission_iff :
    (t : RoleTables) (key : String) (rp : RolePermission)
    → In (some key) (keys_of_permission t rp) ↔ Names t key rp
unfolding keys_of_permission
keys_of_permission_iff t key rp = ground (
  arith,
  In-left_join_iff key
      (map (λ p. some p.key) (filter (λ p. p.id == rp.permission_id) t.permissions)),
  keys_iff rp.permission_id key t.permissions,
)

permissions_iff :
    (t : RoleTables) (id key : String) (rows : List RolePermission)
    → Any (λ rp. In (some key) (keys_of_permission t rp)) (filter (λ rp. rp.role_id == id) rows)
      ↔ Any (λ rp. (rp.role_id ≡ id) × Names t key rp) rows
permissions_iff t id key [] = ground arith
permissions_iff t id key (rp ∷ rows) =
    ground
      (arith, permissions_iff t id key rows, ==_iff rp.role_id id, keys_of_permission_iff t key rp)

keys_of_role_iff :
    (t : RoleTables) (key : String) (r : Role) → In (some key) (keys_of_role t r) ↔ Gives t key r
unfolding keys_of_role
keys_of_role_iff t key r =
    let rows = filter (λ rp. rp.role_id == r.id) t.role_permissions in
    ground (
      arith,
      In-left_join_iff key (flat_map (keys_of_permission t) rows),
      In-flat_map_iff (keys_of_permission t) (some key) rows,
      permissions_iff t r.id key t.role_permissions,
    )

roles_iff :
    (t : RoleTables) (id key : String) (rows : List Role)
    → Any (λ r. In (some key) (keys_of_role t r)) (filter (λ r. r.id == id) rows)
      ↔ Any (λ r. (r.id ≡ id) × Gives t key r) rows
roles_iff t id key [] = ground arith
roles_iff t id key (r ∷ rows) =
    ground (arith, roles_iff t id key rows, ==_iff r.id id, keys_of_role_iff t key r)

assigned_iff :
    (t : RoleTables) (user key : String) (rows : List UserRole)
    → Any
        (λ ur. In (some key) (flat_map (keys_of_role t) (filter (λ r. r.id == ur.role_id) t.roles)))
        (filter (λ ur. ur.user_id == user) rows)
      ↔ Any
          (λ ur. (ur.user_id ≡ user) × Any (λ r. (r.id ≡ ur.role_id) × Gives t key r) t.roles)
          rows
assigned_iff t user key [] = ground arith
assigned_iff t user key (ur ∷ rows) = ground (
  arith,
  assigned_iff t user key rows,
  ==_iff ur.user_id user,
  In-flat_map_iff (keys_of_role t) (some key) (filter (λ r. r.id == ur.role_id) t.roles),
  roles_iff t ur.role_id key t.roles,
)

known_keys_iff :
    (key : String) (rows : List (Option String))
    → In key (known_keys rows)
      ↔ ((is_known_permission key ≡ true) × (key ≢ "") × In (some key) rows)
unfolding known_keys
known_keys_iff key [] = ground arith
known_keys_iff key (none ∷ rows) = ground (arith, known_keys_iff key rows)
known_keys_iff key (some k ∷ rows) = ground (arith, known_keys_iff key rows, ==_iff k "")

nothing_unnamed : is_known_permission "" ≡ false
unfolding is_known_permission has
nothing_unnamed = refl

known_named : (key : String) → is_known_permission key ≡ true → key ≢ ""
known_named key known blank = let h = rw blank at known in ground (arith, nothing_unnamed)

-- A user has a permission exactly when it is in the catalogue and a role that is assigned to the
-- user has it.
pub permissions_for_iff :
    (t : RoleTables) (user key : String)
    → (has (permissions_for t user) key ≡ true)
      ↔ ((is_known_permission key ≡ true) × IsAssigned t user key)
unfolding permissions_for permission_rows
permissions_for_iff t user key = ground (
  arith,
  has_iff (permissions_for t user) key,
  In-set_of_iff key (known_keys (permission_rows t user)),
  known_keys_iff key (permission_rows t user),
  In-flat_map_iff (λ ur. flat_map (keys_of_role t) (filter (λ r. r.id == ur.role_id) t.roles))
      (some key) (filter (λ ur. ur.user_id == user) t.user_roles),
  assigned_iff t user key t.user_roles,
  known_named key,
)
