-- ===== src/Auth/Access/Tests.antt =====
-- A run of the guards of api/src/app.module.ts, and the theorems about them there.
use dockplane.Base.{
  String, ◌≡◌, refl, ◌↔◌, ◌⊎◌, inl, inr, true, false, Option, none, some, [], ◌∷◌, arith, ==_iff,
  string_eq, ◌==◌, find, has, ok, err, set_of, forbidden,
}
use dockplane.Auth.Roles.{
  RoleTables, is_known_permission, permissions_for, keys_of_permission, keys_of_role,
  permission_rows, known_keys,
}
use dockplane.Auth.Roles.Granted.{IsAssigned, permissions_for_iff}
use dockplane.Auth.Sessions.{
  SessionStore, SessionConfig, UserRow, ActiveSession, resolve, resolve_row, row_of, user_active,
  touch, verify_csrf,
}
use dockplane.Auth.Access.{
  Route, Request, Caller, session_guard, resolved_session, identified, csrf_guard,
  assert_origin_allowed, declared_origin, permissions_guard, admit,
}
use dockplane.Auth.Access.Guards.{IsEstablished, IsVerified, IsPermitted}
use dockplane.Auth.Access.Admission.{admitted, admits}

abbrev config : SessionConfig
config = record { session_ttl = 86400; session_idle_timeout = 900 }

-- It stands for a digest, and for the reading of a URL.
abbrev digest : String → String
digest t = t

abbrev origin_of : String → Option String
origin_of url = some url

abbrev tables : RoleTables
tables = record {
  user_roles = record { user_id = "u1"; role_id = "r1" } ∷ [];
  roles = record { id = "r1"; name = "operator" } ∷ [];
  role_permissions = record { role_id = "r1"; permission_id = "p1" } ∷ [];
  permissions = record { id = "p1"; key = "containers.start" } ∷ [];
}

abbrev ann : UserRow
ann = record { id = "u1"; is_active = true }

abbrev store : SessionStore
store = record {
  sessions =
      record {
        id = "s1";
        user_id = "u1";
        token_hash = "t1";
        csrf_token_hash = "x1";
        mfa_pending = false;
        user_agent = none;
        source_ip = none;
        created_at = 1000;
        last_seen_at = 1000;
        expires_at = 86401000;
        revoked_at = none;
      }
      ∷ [];
  users = ann ∷ [];
}

abbrev session : ActiveSession
session = record {
  id = "s1";
  user_id = "u1";
  mfa_pending = false;
  csrf_token_hash = "x1";
  expires_at = 86401000;
}

abbrev route : Route
route = record { is_public = false; allows_mfa_pending = false; required = "containers.start" ∷ [] }

abbrev request : Request
request = record {
  method = "POST";
  cookie = some "t1";
  csrf_header = some "x1";
  origin = some "https://dock.example";
  referer = none;
}

abbrev caller : Caller
caller = record { session = session; user_id = "u1"; permissions = "containers.start" ∷ [] }

runs : Unit {0}
unfolding admit session_guard resolved_session identified csrf_guard assert_origin_allowed
    declared_origin permissions_guard permissions_for permission_rows known_keys keys_of_role
    keys_of_permission is_known_permission resolve resolve_row row_of user_active touch verify_csrf
    has set_of
runs = tt

admit_run :
    admit config digest origin_of "https://dock.example" route request tables store 5000
    ≡ ok (some caller)
unfolding runs
admit_run = refl

forged_run :
    admit config digest origin_of "https://dock.example" route
      (record request { csrf_header = some "x9" })
      tables
      store
      5000
    ≡ err (forbidden "CSRF_INVALID" "The request could not be verified.")
unfolding runs
forged_run = refl

resolve_run : (resolve config digest store "t1" 5000).0 ≡ some session
unfolding runs
resolve_run = refl

user_run : find (λ u. u.id == "u1") (resolve config digest store "t1" 5000).1.users ≡ some ann
unfolding runs
user_run = refl

request-IsVerified : IsVerified origin_of "https://dock.example" digest request session
unfolding runs
request-IsVerified = (inr refl, refl)

route-IsPermitted : IsPermitted tables "u1" ("containers.start" ∷ [])
unfolding runs
route-IsPermitted = ground arith

permissions_for_iff_example :
    (has (permissions_for tables "u1") "containers.start" ≡ true)
    ↔ ((is_known_permission "containers.start" ≡ true) × IsAssigned tables "u1" "containers.start")
permissions_for_iff_example = permissions_for_iff tables "u1" "containers.start"

admitted_example :
    (c : Caller) × (some caller ≡ some c)
    × IsEstablished config digest route request tables store 5000 c
    × ((has {A = String} ("GET" ∷ "HEAD" ∷ "OPTIONS" ∷ []) "POST" ≡ true)
        ⊎ IsVerified origin_of "https://dock.example" digest request c.session)
    × IsPermitted tables c.user_id ("containers.start" ∷ [])
admitted_example =
    admitted config digest origin_of "https://dock.example" route request tables store 5000
      (some caller) (omega arith) admit_run

admits_example :
    admit config digest origin_of "https://dock.example" route request tables store 5000
    ≡ ok (
        some
          (record { session = session; user_id = "u1"; permissions = permissions_for tables "u1" }))
admits_example =
    admits config digest origin_of "https://dock.example" route request tables store 5000 "t1"
      session ann refl (ground (arith, ==_iff {A = String} "t1" "")) resolve_run user_run (inl refl)
      (inr request-IsVerified) route-IsPermitted
