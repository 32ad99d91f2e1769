-- ===== src/Auth/Access/Admission.antt =====
-- Who is admitted to a route that requires a permission (api/src/app.module.ts).
use dockplane.Base.{
  ℕ, String, ◌≡◌, refl, ◌≢◌, ◌⊎◌, inl, inr, true, false, Option, some, [], ◌∷◌, arith, ◌==◌, ==_iff,
  string_eq, option_eq, nat_eq, Option-cases, length, find, has, Result-cases, ok,
}
use dockplane.Auth.Roles.{RoleTables, permissions_for}
use dockplane.Auth.Sessions.{SessionStore, SessionConfig, ActiveSession, UserRow, resolve}
use dockplane.Auth.Access.{
  Route, Request, Caller, session_guard, csrf_guard, permissions_guard, admit,
}
use dockplane.Auth.Access.Guards.{
  IsPermitted, IsEstablished, IsVerified, permissions_guard_iff, permissions_guard-nobody,
  each_granted_iff, csrf_guard_iff, resolved_session-some, session_guard-caller,
}

module _ (config : SessionConfig) (hash : String → String) (safe_origin : String → Option String)
    (site : String) where
  -- A route that requires permissions is reached only by a caller whose cookie names a session that
  -- resolves, with the second factor passed or the route open without it, whose roles give every
  -- permission that is required, and whose request, unless it is GET, HEAD or OPTIONS, declares no
  -- other origin and carries the token of the session.
  pub admitted :
      (route : Route) (request : Request) (tables : RoleTables) (st : SessionStore) (now : ℕ)
      (o : Option Caller)
      → length route.required ≢ 0
      → admit config hash safe_origin site route request tables st now ≡ ok o
      → (c : Caller) × (o ≡ some c)
        × IsEstablished config hash route request tables st now c
        × ((has ("GET" ∷ "HEAD" ∷ "OPTIONS" ∷ []) request.method ≡ true)
            ⊎ IsVerified safe_origin site hash request c.session)
        × IsPermitted tables c.user_id route.required
  unfolding admit
  admitted route request tables st now o guarded e =
      let first = (session_guard config hash route request tables st now).0 in
      elim (Result-cases first) [
        | inr (refusal, stopped) ↦ absurd (ground arith)
        | inl (caller, passed) ↦ elim (Option-cases caller) [
          | inl nobody ↦ absurd (ground (arith, permissions_guard-nobody route.required))
          | inr (c, known) ↦
              let passed' : (session_guard config hash route request tables st now).0
                  ≡ ok (some c) =
                ground arith in
              let established =
                session_guard-caller config hash route request tables st now c passed' in
              let verified : csrf_guard safe_origin site hash request (some c) ≡ ok tt =
                ground arith in
              let allowed : permissions_guard route.required (some c) ≡ ok tt = ground arith in
              let held = (permissions_guard_iff route.required c).0 allowed in
              (
                c,
                ground arith,
                established,
                (csrf_guard_iff safe_origin site hash request c).0 verified,
                (each_granted_iff tables c.user_id route.required).0
                    (rw established.permissions at held),
              )
        ]
      ]

  -- A request whose cookie names a session that resolves, for a known user, with the second factor
  -- passed or the route open without it, is admitted when the user's roles give every permission
  -- that is required, and it is GET, HEAD or OPTIONS or declares no other origin and carries the
  -- token of the session.
  pub admits :
      (route : Route) (request : Request) (tables : RoleTables) (st : SessionStore) (now : ℕ)
      (token : String) (s : ActiveSession) (u : UserRow)
      → request.cookie ≡ some token
      → token ≢ ""
      → (resolve config hash st token now).0 ≡ some s
      → find (λ u. u.id == s.user_id) (resolve config hash st token now).1.users ≡ some u
      → (s.mfa_pending ≡ false) ⊎ (route.allows_mfa_pending ≡ true)
      → (has ("GET" ∷ "HEAD" ∷ "OPTIONS" ∷ []) request.method ≡ true)
        ⊎ IsVerified safe_origin site hash request s
      → IsPermitted tables u.id route.required
      → admit config hash safe_origin site route request tables st now
        ≡ ok (
            some
              (record { session = s; user_id = u.id; permissions = permissions_for tables u.id }))
  unfolding admit
  admits route request tables st now token s u sent named resolves found factor verified permitted =
      let c : Caller = record {
        session = s;
        user_id = u.id;
        permissions = permissions_for tables u.id;
      } in
      let passed : (session_guard config hash route request tables st now).0 ≡ ok (some c) =
        unfold session_guard in
        ground (
          arith,
          ==_iff token "",
          resolved_session-some config hash route tables (resolve config hash st token now) s u,
        ) in
      let checked = (csrf_guard_iff safe_origin site hash request c).1 verified in
      let allowed =
        (permissions_guard_iff route.required c).1
          ((each_granted_iff tables u.id route.required).1 permitted) in
      rw (passed, checked, allowed) refl
