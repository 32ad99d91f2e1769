-- ===== src/Auth/Sessions/Issuing.antt =====
-- The sessions that `issue` and `completeMfa` of api/src/auth/session.service.ts hand out.
use dockplane.Base.{
  ℕ, ◌+◌, ◌*◌, ◌<◌, String, ◌≡◌, refl, ap, ◌∙◌, ◌≢◌, Bool, true, false, ◌&&◌, none, some, arith,
  ◌==◌, ==_iff, ==_refl, string_eq, Option-cases, inl, inr, is_some, find, update_where,
  find-update_where,
}
use dockplane.Auth.Sessions.{
  SessionRow, SessionStore, SessionConfig, SessionContext, Draw, IssuedSession, user_active, row_of,
  resolve, new_row, issue, complete_mfa,
}
use dockplane.Auth.Sessions.Usable.{view, resolve_iff}

module _ (config : SessionConfig) (hash clip : String → String) (draw : Draw) where
  -- A new session resolves by its token, to its user and with the second factor pending as asked,
  -- as long as the user is active and neither its lifetime nor the idle time has run out.
  resolve-issue :
      (st : SessionStore) (user : String) (mfa_pending : Bool) (ctx : SessionContext)
      (now later : ℕ)
      → user_active st (new_row config hash clip draw user mfa_pending ctx now) ≡ some true
      → later < now + config.session_ttl * 1000
      → later < now + config.session_idle_timeout * 1000
      → (resolve config hash
          (issue config hash clip st draw user mfa_pending ctx now).1
          draw.token
          later).0
        ≡ some (record {
          id = draw.id;
          user_id = user;
          mfa_pending = mfa_pending;
          csrf_token_hash = hash draw.csrf_token;
          expires_at = now + config.session_ttl * 1000;
        })
  unfolding issue new_row row_of user_active
  resolve-issue st user mfa_pending ctx now later active alive seen =
      let st' = (issue config hash clip st draw user mfa_pending ctx now).1 in
      let row = new_row config hash clip draw user mfa_pending ctx now in
      let found : row_of hash st' draw.token ≡ some row =
        ground (arith, ==_refl (hash draw.token), active) in
      (resolve_iff config hash st' draw.token later (view row)).1
        (row, found, record { user = active; unrevoked = refl; alive = alive; seen = seen }, refl)

module _ (config : SessionConfig) (hash clip : String → String) (draw : Draw) (ctx : SessionContext)
    (now : ℕ) where
  -- The store in which the half-authenticated session is revoked.
  abbrev without : SessionStore → String → SessionStore
  without st id = record st {
    sessions = update_where (λ s. s.id == id) (λ s. record s { revoked_at = some now }) st.sessions;
  }

  -- A successful rotation is the issue, for the user of the row, of a session that is not pending.
  complete_mfa-issue :
      (st : SessionStore) (id : String) (issued : IssuedSession) (st' : SessionStore)
      → complete_mfa config hash clip st draw id ctx now ≡ some (issued, st')
      → (s : SessionRow) × (find (λ s. s.id == id) st.sessions ≡ some s)
        × ((issued, st') ≡ issue config hash clip (without st id) draw s.user_id false ctx now)
  unfolding complete_mfa
  complete_mfa-issue st id issued st' e = elim (Option-cases (find (λ s. s.id == id) st.sessions)) [
    | inl missing ↦ absurd (ground arith)
    | inr (s, found) ↦ (s, found, ground arith)
  ]

  row_of-without :
      (st : SessionStore) (id token : String) (s : SessionRow)
      → row_of hash st token ≡ some s
      → s.id ≡ id
      → row_of hash (without st id) token ≡ some (record s { revoked_at = some now })
  unfolding row_of user_active
  row_of-without st id token s found same = ground (
    arith,
    find-update_where (λ s. s.token_hash == hash token && is_some (user_active st s))
        (λ s. s.id == id) (λ s. record s { revoked_at = some now }) st.sessions (λ s. refl),
    ==_iff s.id id,
  )

  row_of-issue :
      (st : SessionStore) (user token : String) (pending : Bool)
      → hash draw.token ≢ hash token
      → row_of hash (issue config hash clip st draw user pending ctx now).1 token
        ≡ row_of hash st token
  unfolding issue new_row row_of user_active
  row_of-issue st user token pending fresh = ground (arith, ==_iff (hash draw.token) (hash token))

  -- Once the second factor was accepted, a token of the half-authenticated session never resolves
  -- again, if its digest is not that of the new token.
  pub rotation-old :
      (st : SessionStore) (id token : String) (s : SessionRow) (issued : IssuedSession)
      (st' : SessionStore) (later : ℕ)
      → complete_mfa config hash clip st draw id ctx now ≡ some (issued, st')
      → row_of hash st token ≡ some s
      → s.id ≡ id
      → hash draw.token ≢ hash token
      → (resolve config hash st' token later).0 ≡ none
  rotation-old st id token s issued st' later e found same fresh =
      let (p, previous, result) = complete_mfa-issue st id issued st' e in
      let dead : row_of hash st' token ≡ some (record s { revoked_at = some now }) =
        ap (λ (r : IssuedSession × SessionStore). row_of hash r.1 token) result
        ∙ row_of-issue (without st id) p.user_id token false fresh
        ∙ row_of-without st id token s found same in
      elim (Option-cases (resolve config hash st' token later).0) [
        | inl gone ↦ gone
        | inr (a, resolved_session) ↦
            let (r, there, usable, v) =
              (resolve_iff config hash st' token later a).0 resolved_session in
            let live = usable.unrevoked in absurd (ground arith)
      ]

  -- Once the second factor was accepted, the token drawn is the one handed out, and it resolves to
  -- the user of the half-authenticated session with no factor pending, as long as the user is
  -- active and neither the lifetime of the new session nor its idle time has run out.
  pub rotation-new :
      (st : SessionStore) (id : String) (s : SessionRow) (issued : IssuedSession)
      (st' : SessionStore) (later : ℕ)
      → find (λ s. s.id == id) st.sessions ≡ some s
      → complete_mfa config hash clip st draw id ctx now ≡ some (issued, st')
      → user_active st s ≡ some true
      → later < now + config.session_ttl * 1000
      → later < now + config.session_idle_timeout * 1000
      → (issued.token ≡ draw.token)
        × ((resolve config hash st' issued.token later).0
            ≡ some (record {
              id = draw.id;
              user_id = s.user_id;
              mfa_pending = false;
              csrf_token_hash = hash draw.csrf_token;
              expires_at = now + config.session_ttl * 1000;
            }))
  unfolding complete_mfa issue user_active new_row
  rotation-new st id s issued st' later previous e active alive seen =
      let result : (issued, st')
          ≡ issue config hash clip (without st id) draw s.user_id false ctx now =
        ground arith in
      let token : issued.token ≡ draw.token =
        ap (λ (r : IssuedSession × SessionStore). r.0.token) result in
      let resolves =
        resolve-issue config hash clip draw (without st id) s.user_id false ctx now later active
          alive seen in
      let store : st' ≡ (issue config hash clip (without st id) draw s.user_id false ctx now).1 =
        ap (λ (r : IssuedSession × SessionStore). r.1) result in
      (token, rw (token, store) resolves)
