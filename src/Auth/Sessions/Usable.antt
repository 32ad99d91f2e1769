-- ===== src/Auth/Sessions/Usable.antt =====
-- When a session of api/src/auth/session.service.ts may be used.
use dockplane.Base.{
  ℕ, ◌<◌, String, ◌≡◌, refl, ◌↔◌, true, ◌&&◌, none, some, arith, ◌==◌, string_eq, Option-cases, inl,
  inr, is_some, find,
}
use dockplane.Auth.Sessions.{
  SessionRow, SessionStore, SessionConfig, ActiveSession, user_active, idle_deadline, is_active,
  row_of, resolve_row, resolve,
}

abbrev pub view : SessionRow → ActiveSession
view s = record {
  id = s.id;
  user_id = s.user_id;
  mfa_pending = s.mfa_pending;
  csrf_token_hash = s.csrf_token_hash;
  expires_at = s.expires_at;
}

module _ (config : SessionConfig) where
  -- The user is active, the session is not revoked, and neither its lifetime nor the time it may
  -- lie idle has run out.
  pub record IsUsable (st : SessionStore) (now : ℕ) (s : SessionRow) : Type 0 where
    pub user : user_active st s ≡ some true
    pub unrevoked : s.revoked_at ≡ none
    pub alive : now < s.expires_at
    pub seen : now < idle_deadline config s

  -- A session is active exactly when the row of its id (with a user) is usable.
  is_active_iff :
      (st : SessionStore) (id : String) (now : ℕ)
      → (is_active config st id now ≡ true) ↔ (
          (s : SessionRow) × (find (λ s. s.id == id && is_some (user_active st s)) st.sessions
            ≡ some s)
          × IsUsable st now s)
  unfolding is_active
  is_active_iff st id now =
      elim (Option-cases (find (λ s. s.id == id && is_some (user_active st s)) st.sessions)) [
        | inl missing ↦ rw missing (ground arith)
        | inr (s, found) ↦
            rw found
              ((λ e. (s, refl, ground arith)), λ h. let (t, same, usable) = h in ground arith)
      ]

  module _ (hash : String → String) where
    -- A cookie token resolves to a session exactly when the row of its digest is usable, and then
    -- to what that row says.
    pub resolve_iff :
        (st : SessionStore) (token : String) (now : ℕ) (a : ActiveSession)
        → ((resolve config hash st token now).0 ≡ some a)
          ↔ ((s : SessionRow) × (row_of hash st token ≡ some s) × IsUsable st now s × (a ≡ view s))
    unfolding resolve resolve_row
    resolve_iff st token now a = elim (Option-cases (row_of hash st token)) [
      | inl missing ↦ rw missing (ground arith)
      | inr (s, found) ↦ rw found (
        (λ e. (s, refl, ground arith, ground arith)),
        λ h. let (t, same, usable, shown) = h in ground arith,
      )
    ]
