-- ===== src/Auth/Access.antt =====
-- The guards that every request meets, in the order of api/src/app.module.ts: session.guard.ts and
-- csrf.guard.ts of api/src/auth, and api/src/rbac/permissions.guard.ts.
-- The metadata of a route and the headers of a request are given. `site` is the origin of the
-- application, `PUBLIC_APP_URL` without the slash at its end; `safe_origin` is the reading of a
-- URL.
pub mod Guards
pub mod Admission
mod Tests
use dockplane.Base.{
  ℕ, String, Bool, true, false, not, ◌&&◌, ◌||◌, Option, none, some, List, [], ◌∷◌, ◌==◌, ◌!=◌,
  string_eq, option_eq, nat_eq, if◌then◌else◌, length, filter, find, has, is_blank, AppError,
  unauthorized, forbidden, Result, ok, err, ◌>>◌, ◌>>=◌, throw_if,
}
use dockplane.Auth.Roles.{RoleTables, permissions_for}
use dockplane.Auth.Sessions.{SessionStore, SessionConfig, ActiveSession, resolve, verify_csrf}

pub record Route : Type 0 where
  pub is_public : Bool
  pub allows_mfa_pending : Bool
  pub required : List String

pub record Request : Type 0 where
  pub method : String
  pub cookie : Option String
  pub csrf_header : Option String
  pub origin : Option String
  pub referer : Option String

-- What the session guard establishes: the session, the user and what the user may do.
pub record Caller : Type 0 where
  pub session : ActiveSession
  pub user_id : String
  pub permissions : List String

-- A request without a session is let through to a public route only.
pub anonymous : Route → String → String → Result (Option Caller)
anonymous route code message = if route.is_public then ok none else err (unauthorized code message)

pub identified : Route → RoleTables → SessionStore → ActiveSession → Result (Option Caller)
identified route tables st session = elim (find (λ u. u.id == session.user_id) st.users) [
  | none ↦ err (unauthorized "SESSION_REVOKED" "The session is no longer valid.")
  | some user ↦
      if session.mfa_pending && not route.allows_mfa_pending
      then err (unauthorized "AUTH_MFA_REQUIRED" "Multi-factor authentication is required.")
      else ok (
          some (record {
            session = session;
            user_id = user.id;
            permissions = permissions_for tables user.id;
          }))
]

module _ (config : SessionConfig) (hash : String → String) where
  pub resolved_session :
      Route
      → RoleTables
      → Option ActiveSession × SessionStore
      → Result (Option Caller) × SessionStore
  resolved_session route tables (none, st) =
      (anonymous route "SESSION_EXPIRED" "The session is no longer valid.", st)
  resolved_session route tables (some session, st) = (identified route tables st session, st)

  pub session_guard :
      Route → Request → RoleTables → SessionStore → ℕ → Result (Option Caller) × SessionStore
  session_guard route request tables st now = elim request.cookie [
    | none ↦ (anonymous route "SESSION_REQUIRED" "Authentication is required.", st)
    | some token ↦
        if is_blank (some token)
        then (anonymous route "SESSION_REQUIRED" "Authentication is required.", st)
        else resolved_session route tables (resolve config hash st token now)
  ]

unverified : AppError
unverified = forbidden "CSRF_INVALID" "The request could not be verified."

module _ (safe_origin : String → Option String) (site : String) where
  -- `origin ?? (referer ? safeOrigin(referer) : undefined)`
  pub declared_origin : Request → Option String
  declared_origin request = elim request.origin [
    | some origin ↦ some origin
    | none ↦ elim request.referer [
      | none ↦ none
      | some referer ↦ if is_blank (some referer) then none else safe_origin referer
    ]
  ]

  pub assert_origin_allowed : Request → Result (Unit {0})
  unfolding unverified
  assert_origin_allowed request =
      throw_if (not (is_blank (declared_origin request)) && declared_origin request != some site)
        unverified

  pub csrf_guard : (String → String) → Request → Option Caller → Result (Unit {0})
  unfolding unverified
  csrf_guard hash request caller =
      if has ("GET" ∷ "HEAD" ∷ "OPTIONS" ∷ []) request.method then ok tt else do
        assert_origin_allowed request
        elim caller [
          | none ↦ ok tt
          | some c ↦ throw_if (not (verify_csrf hash c.session request.csrf_header)) unverified
        ]

denied : AppError
denied = forbidden "PERMISSION_DENIED" "You do not have permission to perform this action."

pub permissions_guard : List String → Option Caller → Result (Unit {0})
unfolding denied
permissions_guard required caller = if length required == 0 then ok tt else elim caller [
  | none ↦ err denied
  | some c ↦ throw_if (not (length (filter (λ p. not (has c.permissions p)) required) == 0)) denied
]

-- The three guards, one after the other.
module _ (config : SessionConfig) (hash : String → String) (safe_origin : String → Option String)
    (site : String) where
  pub admit : Route → Request → RoleTables → SessionStore → ℕ → Result (Option Caller)
  admit route request tables st now = do
    caller ← (session_guard config hash route request tables st now).0
    csrf_guard safe_origin site hash request caller
    permissions_guard route.required caller
    ok caller
