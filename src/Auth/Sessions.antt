-- ===== src/Auth/Sessions.antt =====
-- api/src/auth/session.service.ts: the server-side session store.
-- Times are milliseconds. Random values (tokens, and the id that the database gives a row) and the
-- time of a call are arguments. `hash` is SHA-256 and `clip` is `.slice(0, 256)`; neither is the
-- program's. `secretsEqual` compares texts byte by byte, which is equality.
pub mod Usable
pub mod Revoking
pub mod Issuing
mod Tests
use mathlib.Core.Option
use dockplane.Base.{
  ℕ, ◌+◌, ◌*◌, String, Bool, true, false, not, ◌&&◌, ◌||◌, Option, none, some, List, [], ◌∷◌, ◌==◌,
  ◌!=◌, string_eq, option_eq, is_some, is_none, is_blank, if◌then◌else◌, leb, ltb, find, filter,
  length, update_where,
}

pub record SessionRow : Type 0 where
  pub id : String
  pub user_id : String
  pub token_hash : String
  pub csrf_token_hash : String
  pub mfa_pending : Bool
  pub user_agent : Option String
  pub source_ip : Option String
  pub created_at : ℕ
  pub last_seen_at : ℕ
  pub expires_at : ℕ
  pub revoked_at : Option ℕ

pub record UserRow : Type 0 where
  pub id : String
  pub is_active : Bool

pub record SessionStore : Type 0 where
  pub sessions : List SessionRow
  pub users : List UserRow

-- Both in seconds.
pub record SessionConfig : Type 0 where
  pub session_ttl : ℕ
  pub session_idle_timeout : ℕ

pub record IssuedSession : Type 0 where
  pub session_id : String
  pub token : String
  pub csrf_token : String
  pub expires_at : ℕ

pub record ActiveSession : Type 0 where
  pub id : String
  pub user_id : String
  pub mfa_pending : Bool
  pub csrf_token_hash : String
  pub expires_at : ℕ

pub record SessionContext : Type 0 where
  pub user_agent : Option String
  pub source_ip : Option String

-- What is drawn at random for a new session.
pub record Draw : Type 0 where
  pub id : String
  pub token : String
  pub csrf_token : String

-- `sessions inner join users on users.id = sessions.userId`: the user's `isActive`, if there is
-- one.
unfoldable pub user_active : SessionStore → SessionRow → Option Bool
user_active st s = Option.map (λ u. u.is_active) (find (λ u. u.id == s.user_id) st.users)

pub revoke : SessionStore → String → ℕ → SessionStore
revoke st id now = record st {
  sessions =
      update_where (λ s. s.id == id && is_none s.revoked_at)
        (λ s. record s { revoked_at = some now }) st.sessions;
}

-- The sessions that `revokeAllForUser` ends; `except` counts as absent when it is empty.
abbrev pub is_swept : String → Option String → SessionRow → Bool
is_swept user except s =
    s.user_id == user && is_none s.revoked_at && (is_blank except || some s.id != except)

pub revoke_all_for_user : SessionStore → String → Option String → ℕ → SessionStore × ℕ
revoke_all_for_user st user except now = (
  record st {
    sessions =
        update_where (is_swept user except) (λ s. record s { revoked_at = some now }) st.sessions;
  },
  length (filter (is_swept user except) st.sessions),
)

unfoldable pub touch : SessionStore → String → ℕ → SessionStore
touch st id now = record st {
  sessions = update_where (λ s. s.id == id) (λ s. record s { last_seen_at = now }) st.sessions;
}

module _ (hash : String → String) where
  -- The row that a cookie token names.
  unfoldable pub row_of : SessionStore → String → Option SessionRow
  row_of st token = find (λ s. s.token_hash == hash token && is_some (user_active st s)) st.sessions

  unfoldable pub verify_csrf : ActiveSession → Option String → Bool
  verify_csrf session none = false
  verify_csrf session (some presented) = session.csrf_token_hash == hash presented

  pub issue_csrf_token : SessionStore → String → String → SessionStore
  issue_csrf_token st id csrf_token = record st {
    sessions =
        update_where (λ s. s.id == id) (λ s. record s { csrf_token_hash = hash csrf_token })
          st.sessions;
  }

module _ (config : SessionConfig) where
  abbrev pub expiry : ℕ → ℕ
  expiry now = now + config.session_ttl * 1000

  abbrev pub idle_deadline : SessionRow → ℕ
  idle_deadline s = s.last_seen_at + config.session_idle_timeout * 1000

  -- Whether the row with its user is one that may not be used, before the idle clock is read.
  abbrev pub is_dead : SessionRow → Bool → ℕ → Bool
  is_dead s active now = is_some s.revoked_at || not active || leb s.expires_at now

  pub is_active : SessionStore → String → ℕ → Bool
  is_active st id now = elim (find (λ s. s.id == id && is_some (user_active st s)) st.sessions) [
    | none ↦ false
    | some s ↦ elim (user_active st s) [
      | none ↦ false
      | some active ↦ if is_dead s active now then false else ltb now (idle_deadline s)
    ]
  ]

  module _ (hash : String → String) where
    unfoldable pub resolve_row :
        SessionStore → SessionRow → Bool → ℕ → Option ActiveSession × SessionStore
    resolve_row st s active now =
        if is_dead s active now
        then (none, st)
        else if leb (idle_deadline s) now
        then (none, revoke st s.id now)
        else (
          some (record {
            id = s.id;
            user_id = s.user_id;
            mfa_pending = s.mfa_pending;
            csrf_token_hash = s.csrf_token_hash;
            expires_at = s.expires_at;
          }),
          touch st s.id now,
        )

    unfoldable pub resolve : SessionStore → String → ℕ → Option ActiveSession × SessionStore
    resolve st token now = elim (row_of hash st token) [
      | none ↦ (none, st)
      | some s ↦ elim (user_active st s) [
        | none ↦ (none, st)
        | some active ↦ resolve_row st s active now
      ]
    ]

    module _ (clip : String → String) where
      pub new_row : Draw → String → Bool → SessionContext → ℕ → SessionRow
      new_row draw user mfa_pending ctx now = record {
        id = draw.id;
        user_id = user;
        token_hash = hash draw.token;
        csrf_token_hash = hash draw.csrf_token;
        mfa_pending = mfa_pending;
        user_agent = Option.map clip ctx.user_agent;
        source_ip = ctx.source_ip;
        created_at = now;
        last_seen_at = now;
        expires_at = expiry now;
        revoked_at = none;
      }

      pub issue :
          SessionStore → Draw → String → Bool → SessionContext → ℕ → IssuedSession × SessionStore
      issue st draw user mfa_pending ctx now = (
        record {
          session_id = draw.id;
          token = draw.token;
          csrf_token = draw.csrf_token;
          expires_at = expiry now;
        },
        record st { sessions = new_row draw user mfa_pending ctx now ∷ st.sessions },
      )

      -- `none` is the thrown "Session no longer exists". Unlike `revoke` this sets the time of
      -- revocation also where one is set.
      pub complete_mfa :
          SessionStore → Draw → String → SessionContext → ℕ → Option (IssuedSession × SessionStore)
      complete_mfa st draw id ctx now = elim (find (λ s. s.id == id) st.sessions) [
        | none ↦ none
        | some previous ↦ some (
            issue
              (record st {
                sessions =
                    update_where (λ s. s.id == id) (λ s. record s { revoked_at = some now })
                      st.sessions;
              })
              draw previous.user_id false ctx now)
      ]
