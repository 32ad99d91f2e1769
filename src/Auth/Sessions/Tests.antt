-- ===== src/Auth/Sessions/Tests.antt =====
-- Runs of api/src/auth/session.service.ts, and the theorems about it at these runs.
use dockplane.Base.{
  String, ◌≡◌, refl, true, false, none, some, [], ◌∷◌, ◌==◌, ==_iff, string_eq, arith, find, ◌<>◌,
}
use dockplane.Auth.Sessions.{
  SessionRow, SessionStore, SessionConfig, SessionContext, Draw, user_active, is_active, row_of,
  resolve_row, resolve, revoke, revoke_all_for_user, touch, new_row, issue, complete_mfa,
}
use dockplane.Auth.Sessions.Issuing.{rotation-old, rotation-new}

-- A day, and a quarter of an hour idle.
abbrev config : SessionConfig
config = record { session_ttl = 86400; session_idle_timeout = 900 }

-- It stands for a digest, and for a text cut short.
abbrev digest : String → String
digest t = "#" <> t

abbrev clip : String → String
clip t = t

abbrev context : SessionContext
context = record { user_agent = none; source_ip = some "10.0.0.1" }

abbrev half : SessionRow
half = record {
  id = "s1";
  user_id = "u1";
  token_hash = "#t1";
  csrf_token_hash = "#x1";
  mfa_pending = true;
  user_agent = none;
  source_ip = none;
  created_at = 1000;
  last_seen_at = 1000;
  expires_at = 86401000;
  revoked_at = none;
}

abbrev store : SessionStore
store = record { sessions = half ∷ []; users = record { id = "u1"; is_active = true } ∷ [] }

abbrev draw : Draw
draw = record { id = "s2"; token = "t2"; csrf_token = "x2" }

rotated : Unit {0}
unfolding complete_mfa issue new_row row_of user_active resolve resolve_row touch revoke is_active
    revoke_all_for_user
rotated = tt

abbrev rotation : SessionStore
rotation =
    (issue config digest clip
      (record store { sessions = record half { revoked_at = some 2000 } ∷ [] }) draw "u1" false
      context 2000).1

rotation_run :
    complete_mfa config digest clip store draw "s1" context 2000
    ≡ some (
      record { session_id = "s2"; token = "t2"; csrf_token = "x2"; expires_at = 86402000 },
      rotation,
    )
unfolding rotated
rotation_run = refl

row_run : row_of digest store "t1" ≡ some half
unfolding rotated
row_run = refl

idle_run : (resolve config digest store "t1" 901000).0 ≡ none
unfolding rotated
idle_run = refl

find_run : find (λ s. s.id == "s1") store.sessions ≡ some half
find_run = refl

active_run : user_active store half ≡ some true
unfolding rotated
active_run = refl

active_new_run :
    user_active store (new_row config digest clip draw "u1" true context 2000) ≡ some true
unfolding rotated
active_new_run = refl

rotation-old_example : (resolve config digest rotation "t1" 5000).0 ≡ none
rotation-old_example =
    rotation-old config digest clip draw context 2000 store "s1" "t1" half
      (record { session_id = "s2"; token = "t2"; csrf_token = "x2"; expires_at = 86402000 })
      rotation 5000 rotation_run row_run refl (ground (arith, ==_iff {A = String} "#t2" "#t1"))

rotation-new_example :
    (draw.token ≡ draw.token)
    × ((resolve config digest rotation "t2" 5000).0
        ≡ some (record {
          id = "s2";
          user_id = "u1";
          mfa_pending = false;
          csrf_token_hash = digest "x2";
          expires_at = 86402000;
        }))
rotation-new_example =
    rotation-new config digest clip draw context 2000 store "s1" half
      (record { session_id = "s2"; token = "t2"; csrf_token = "x2"; expires_at = 86402000 })
      rotation 5000 find_run rotation_run active_run (omega arith) (omega arith)
