-- ===== src/Auth/Access/Guards.antt =====
-- What each guard of api/src/app.module.ts lets through.
use dockplane.Base.{
  ℕ, String, ◌≡◌, refl, ◌≢◌, ◌↔◌, ◌⊎◌, inl, inr, true, false, not, Option, none, some, List, [],
  ◌∷◌, arith, ◌==◌, ==_iff, string_eq, option_eq, nat_eq, Option-cases, Bool-cases, length, find,
  find-some, has, All, is_blank, ok, length-filter-none_iff, All-map_iff,
}
use dockplane.Auth.Roles.{RoleTables, is_known_permission, permissions_for}
use dockplane.Auth.Roles.Granted.{IsAssigned, permissions_for_iff}
use dockplane.Auth.Sessions.{
  SessionStore, SessionConfig, ActiveSession, UserRow, resolve, verify_csrf,
}
use dockplane.Auth.Access.{
  Route, Request, Caller, anonymous, identified, resolved_session, session_guard, declared_origin,
  assert_origin_allowed, csrf_guard, permissions_guard,
}

-- Each permission is in the catalogue and comes from a role of the user.
abbrev pub IsPermitted : RoleTables → String → List String → Type 0
IsPermitted tables user required =
    All (λ p. (is_known_permission p ≡ true) × IsAssigned tables user p) required

pub permissions_guard_iff :
    (required : List String) (c : Caller)
    → (permissions_guard required (some c) ≡ ok tt) ↔ All (λ p. has c.permissions p ≡ true) required
unfolding permissions_guard
permissions_guard_iff [] c = ground arith
permissions_guard_iff (p ∷ required) c = ground (
  arith,
  length-filter-none_iff (λ p. not (has c.permissions p)) required,
  All-map_iff {P = λ p. not (has c.permissions p) ≡ false} {Q = λ p. has c.permissions p ≡ true}
      (λ (p : String). ground arith) required,
)

pub permissions_guard-nobody :
    (required : List String) → length required ≢ 0 → permissions_guard required none ≢ ok tt
unfolding permissions_guard
permissions_guard-nobody required guarded e = ground arith

pub each_granted_iff :
    (tables : RoleTables) (user : String) (required : List String)
    → All (λ p. has (permissions_for tables user) p ≡ true) required
      ↔ IsPermitted tables user required
each_granted_iff tables user = All-map_iff (permissions_for_iff tables user)

anonymous-caller :
    (route : Route) (code message : String) (c : Caller)
    → anonymous route code message ≢ ok (some c)
unfolding anonymous
anonymous-caller route code message c e = ground arith

identified-caller :
    (route : Route) (tables : RoleTables) (st : SessionStore) (session : ActiveSession) (c : Caller)
    → identified route tables st session ≡ ok (some c)
    → (c.session ≡ session)
      × ((session.mfa_pending ≡ false) ⊎ (route.allows_mfa_pending ≡ true))
      × (c.user_id ≡ session.user_id)
      × (c.permissions ≡ permissions_for tables c.user_id)
unfolding identified
identified-caller route tables st session c e =
    elim (Option-cases (find (λ u. u.id == session.user_id) st.users)) [
      | inl missing ↦ absurd (ground arith)
      | inr (u, found) ↦
          let same = find-some (λ u. u.id == session.user_id) st.users u found in
          let user : u.id ≡ session.user_id = ground (arith, same, ==_iff u.id session.user_id) in
          (ground arith, ground arith, ground arith, ground arith)
    ]

module _ (config : SessionConfig) (hash : String → String) where
  resolved_session-caller :
      (route : Route) (tables : RoleTables) (o : Option ActiveSession × SessionStore) (c : Caller)
      → (resolved_session config hash route tables o).0 ≡ ok (some c)
      → (o.0 ≡ some c.session)
        × ((c.session.mfa_pending ≡ false) ⊎ (route.allows_mfa_pending ≡ true))
        × (c.user_id ≡ c.session.user_id)
        × (c.permissions ≡ permissions_for tables c.user_id)
  unfolding resolved_session
  resolved_session-caller route tables (none, st) c e =
      absurd (anonymous-caller route "SESSION_EXPIRED" "The session is no longer valid." c e)
  resolved_session-caller route tables (some session, st) c e =
      let (same, factor, user, permissions) = identified-caller route tables st session c e in
      rw same (refl, factor, user, permissions)

  pub resolved_session-some :
      (route : Route) (tables : RoleTables) (o : Option ActiveSession × SessionStore)
      (s : ActiveSession) (u : UserRow)
      → o.0 ≡ some s
      → find (λ u. u.id == s.user_id) o.1.users ≡ some u
      → (s.mfa_pending ≡ false) ⊎ (route.allows_mfa_pending ≡ true)
      → (resolved_session config hash route tables o).0
        ≡ ok (
            some
              (record { session = s; user_id = u.id; permissions = permissions_for tables u.id }))
  unfolding resolved_session identified
  resolved_session-some route tables (none, st) s u e found factor = absurd (ground arith)
  resolved_session-some route tables (some t, st) s u e found factor =
      let same : s ≡ t = ground arith in rw (← same) (ground arith)

  -- The cookie names a session, for the user of which the caller is established, with the second
  -- factor passed where the route asks for it.
  pub record IsEstablished (route : Route) (request : Request) (tables : RoleTables)
      (st : SessionStore) (now : ℕ) (c : Caller) : Type 0 where
    pub token : String
    pub sent : request.cookie ≡ some token
    pub resolves : (resolve config hash st token now).0 ≡ some c.session
    pub second_factor : (c.session.mfa_pending ≡ false) ⊎ (route.allows_mfa_pending ≡ true)
    pub user : c.user_id ≡ c.session.user_id
    pub permissions : c.permissions ≡ permissions_for tables c.user_id

  pub session_guard-caller :
      (route : Route) (request : Request) (tables : RoleTables) (st : SessionStore) (now : ℕ)
      (c : Caller)
      → (session_guard config hash route request tables st now).0 ≡ ok (some c)
      → IsEstablished route request tables st now c
  unfolding session_guard
  session_guard-caller route request tables st now c e = elim (Option-cases request.cookie) [
    | inl missing ↦
        absurd (
          ground (arith, anonymous-caller route "SESSION_REQUIRED" "Authentication is required." c))
    | inr (token, sent) ↦ elim (Bool-cases (is_blank (some token))) [
      | inl blank ↦ absurd (
          ground (arith, anonymous-caller route "SESSION_REQUIRED" "Authentication is required." c))
      | inr present ↦
          let (resolves, second_factor, user, permissions) =
            resolved_session-caller route tables (resolve config hash st token now) c
              (ground arith) in
          record {
            token = token;
            sent = sent;
            resolves = resolves;
            second_factor = second_factor;
            user = user;
            permissions = permissions;
          }
    ]
  ]

-- What a state-changing request has to carry: the origin of the application, where it declares one,
-- and the token of its session.
abbrev pub IsVerified :
    (String → Option String) → String → (String → String) → Request → ActiveSession → Type 0
IsVerified safe_origin site hash request session =
    ((is_blank (declared_origin safe_origin site request) ≡ true)
      ⊎ (declared_origin safe_origin site request ≡ some site))
    × (verify_csrf hash session request.csrf_header ≡ true)

pub csrf_guard_iff :
    (safe_origin : String → Option String) (site : String) (hash : String → String)
    (request : Request) (c : Caller)
    → (csrf_guard safe_origin site hash request (some c) ≡ ok tt) ↔ (
        (has ("GET" ∷ "HEAD" ∷ "OPTIONS" ∷ []) request.method ≡ true)
        ⊎ IsVerified safe_origin site hash request c.session)
unfolding csrf_guard assert_origin_allowed
csrf_guard_iff safe_origin site hash request c =
    ground (arith, ==_iff (declared_origin safe_origin site request) (some site))
