-- ===== src/Auth/Sessions/Revoking.antt =====
-- Signing out: the sessions that `revoke` and `revokeAllForUser` of
-- api/src/auth/session.service.ts end, and those that they leave.
use mathlib.Core.Option
use dockplane.Base.{
  ℕ, String, ◌≡◌, refl, ◌≢◌, ◌↔◌, Bool, false, ◌&&◌, Option, some, arith, ◌==◌, ==_iff, string_eq,
  option_eq, Option-cases, Bool-cases, inl, inr, is_some, is_none, is_blank, ◌⊎◌, update_where,
  find-update_where, if◌then◌else◌,
}
use dockplane.Auth.Sessions.{
  SessionRow, SessionStore, SessionConfig, ActiveSession, user_active, is_swept, revoke,
  revoke_all_for_user, row_of, resolve,
}
use dockplane.Auth.Sessions.Usable.{view, IsUsable, resolve_iff}

module _ (config : SessionConfig) (hash : String → String) (st : SessionStore)
    (q : SessionRow → Bool) (t : ℕ) where
  abbrev revoked : SessionRow → SessionRow
  revoked s = record s { revoked_at = some t }

  abbrev swept : SessionStore
  swept = record st { sessions = update_where q revoked st.sessions }

  row_of-swept :
      (token : String)
      → row_of hash swept token
        ≡ Option.map (λ s. if q s then revoked s else s) (row_of hash st token)
  unfolding row_of user_active
  row_of-swept token =
      find-update_where (λ s. s.token_hash == hash token && is_some (user_active st s)) q revoked
        st.sessions (λ s. refl)

  resolve-swept_iff :
      (token : String) (now : ℕ) (a : ActiveSession)
      → ((resolve config hash swept token now).0 ≡ some a) ↔ (
          (s : SessionRow) × (row_of hash st token ≡ some s)
          × (q s ≡ false)
          × IsUsable config st now s
          × (a ≡ view s))
  unfolding user_active
  resolve-swept_iff token now a =
      let (to, from) = resolve_iff config hash swept token now a in
      let moved = row_of-swept token in
      elim (Option-cases (row_of hash st token)) [
        | inl missing ↦ (
          (λ e. let (s, found, u, v) = to e in absurd (ground arith)),
          λ h. let (s, found, k, u, v) = h in absurd (ground arith),
        )
        | inr (s, found) ↦ elim (Bool-cases (q s)) [
          | inl hit ↦ (
            (λ e.
                let (r, found', u, v) = to e in
                let dead : r.revoked_at ≡ some t = ground arith in
                absurd (ground (arith, u.unrevoked))),
            λ h. let (r, found', kept, u, v) = h in absurd (ground arith),
          )
          | inr miss ↦ (
            (λ e.
                let (r, found', u, v) = to e in
                let same : s ≡ r = ground arith in
                (
                  s,
                  found,
                  miss,
                  record {
                    user = ground arith;
                    unrevoked = ground arith;
                    alive = ground arith;
                    seen = ground arith;
                  },
                  ground arith,
                )),
            λ h.
                let (r, found', kept, u, v) = h in
                let same : s ≡ r = ground arith in
                from (
                  s,
                  ground arith,
                  record {
                    user = ground arith;
                    unrevoked = ground arith;
                    alive = ground arith;
                    seen = ground arith;
                  },
                  ground arith,
                ),
          )
        ]
      ]

module _ (config : SessionConfig) (hash : String → String) where
  -- After the session `id` was revoked, a cookie token resolves, at any time, exactly when the row
  -- of its digest has another id and is usable, and then to what that row says.
  revoke_iff :
      (st : SessionStore) (id token : String) (t now : ℕ) (a : ActiveSession)
      → ((resolve config hash (revoke st id t) token now).0 ≡ some a) ↔ (
          (s : SessionRow) × (row_of hash st token ≡ some s)
          × (s.id ≢ id)
          × IsUsable config st now s
          × (a ≡ view s))
  unfolding revoke
  revoke_iff st id token t now a =
      let (to, from) =
        resolve-swept_iff config hash st (λ s. s.id == id && is_none s.revoked_at) t token now a in
      (
        (λ e.
            let (s, found, kept, u, v) = to e in
            (s, found, ground (arith, u.unrevoked, ==_iff s.id id), u, v)),
        λ h.
            let (s, found, other, u, v) = h in
            from (s, found, ground (arith, ==_iff s.id id), u, v),
      )

  -- After the sessions of a user were revoked, a cookie token resolves, at any time, exactly when
  -- the row of its digest is usable and is another user's or the one that was spared, and then to
  -- what that row says.
  revoke_all_iff :
      (st : SessionStore) (user : String) (except : Option String) (token : String) (t now : ℕ)
      (a : ActiveSession)
      → ((resolve config hash (revoke_all_for_user st user except t).0 token now).0 ≡ some a) ↔ (
          (s : SessionRow) × (row_of hash st token ≡ some s)
          × ((s.user_id ≢ user) ⊎ ((is_blank except ≡ false) × (except ≡ some s.id)))
          × IsUsable config st now s
          × (a ≡ view s))
  unfolding revoke_all_for_user
  revoke_all_iff st user except token t now a =
      let (to, from) = resolve-swept_iff config hash st (is_swept user except) t token now a in
      (
        (λ e.
            let (s, found, kept, u, v) = to e in
            (
              s,
              found,
              ground (arith, u.unrevoked, ==_iff s.user_id user, ==_iff (some s.id) except),
              u,
              v,
            )),
        λ h.
            let (s, found, spared, u, v) = h in
            from (s, found, ground (arith, ==_iff s.user_id user, ==_iff (some s.id) except), u, v),
      )
