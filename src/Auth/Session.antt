-- ===== src/Auth/Session.antt =====
-- packages/server/src/auth/session.ts: the rows of sessions. The hash of a token is a parameter;
-- the random token, the keys and the clock are arguments; the signed cookie that a request shows is
-- an argument, absent where there is none or it is empty.
pub mod Laws
use circleftp_jellyfin.Base.{
  ℕ, ◌+◌, ◌*◌, List, [], ◌∷◌, ◌++◌, Option, none, some, Bool, true, false, not, count, filter, find,
  if◌then◌else◌, ◌==◌, leb,
}
use circleftp_jellyfin.Base.Text.{Text, text_eq}
use circleftp_jellyfin.Auth.Model.{Role, User, Session, Accounts, find_user, drop_sessions}

pub record SessionUser : Type 0 where
  pub id : ℕ
  pub email : Text
  pub name : Text
  pub role : Role

module _ (hash_token : Text → Text) where
  unfoldable pub issue_session : ℕ → ℕ → ℕ → Text → ℕ → Accounts → Accounts × ℕ
  issue_session ttl_days id user_id token now a =
      let expires_at = now + ttl_days * 24 * 60 * 60 * 1000 in
      let row : Session = record {
        id = id;
        token_hash = hash_token token;
        user_id = user_id;
        expires_at = expires_at;
      } in
      (record a { sessions = a.sessions ++ row ∷ [] }, expires_at)

  abbrev pub find_session : Text → List Session → Option Session
  find_session token = find (λ s. text_eq s.token_hash (hash_token token))

  -- The user of a session row, unless it is disabled.
  abbrev pub session_user : Option User → Option SessionUser
  session_user none = none
  session_user (some u) =
      if u.disabled
      then none
      else some (record { id = u.id; email = u.email; name = u.name; role = u.role })

  -- `resolveSession`: the user, and the accounts without the row if it had expired.
  unfoldable pub resolve_session : Option Text → ℕ → Accounts → Option SessionUser × Accounts
  resolve_session none now a = (none, a)
  resolve_session (some token) now a = elim (find_session token a.sessions) [
    | none ↦ (none, a)
    | some s ↦
        if leb s.expires_at now
        then (none, record a { sessions = filter (λ t. not (t.id == s.id)) a.sessions })
        else (session_user (find_user s.user_id a.users), a)
  ]

  unfoldable pub destroy_session : Option Text → Accounts → Accounts
  destroy_session none a = a
  destroy_session (some token) a = record a {
    sessions = filter (λ s. not (text_eq s.token_hash (hash_token token))) a.sessions;
  }

unfoldable pub destroy_all_sessions : ℕ → Accounts → Accounts
destroy_all_sessions user_id a = record a { sessions = drop_sessions user_id a.sessions }

unfoldable pub prune_expired_sessions : ℕ → Accounts → Accounts × ℕ
prune_expired_sessions now a = (
  record a { sessions = filter (λ s. not (leb s.expires_at now)) a.sessions },
  count (λ s. leb s.expires_at now) a.sessions,
)
