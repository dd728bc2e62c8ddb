-- ===== src/Routes/Accounts.antt =====
-- packages/server/src/routes/auth.ts and routes/account.ts: signing in and out, and what a user does
-- with the own account. Requests have been parsed; the rate limits are left out. `verifyPassword` and
-- `hashPassword` of auth/password.ts and the hash of a token are parameters, the keys and random
-- tokens of new sessions arguments.
pub mod Laws
mod Tests
use circleftp_jellyfin.Base.{
  ℕ, ◌-◌, List, [], ◌∷◌, Option, none, some, Bool, true, false, not, if◌then◌else◌, ◌==◌, count,
}
use circleftp_jellyfin.Base.Text.{Text, text_eq}
use circleftp_jellyfin.Base.Result.{
  ApiError, Result, ok, err, ◌>>=◌, ◌>>◌, throw_if, or_throw, bad_request, unauthorized, forbidden,
  internal,
}
use circleftp_jellyfin.Auth.Model.{User, Accounts, find_user, find_email, update_users}
use circleftp_jellyfin.Auth.Session.{
  SessionUser, issue_session, destroy_session, destroy_all_sessions,
}
use circleftp_jellyfin.Auth.Users.{Registration, set_password, redeem_invite}
use circleftp_jellyfin.Auth.Reset.{redeem_password_reset}
use circleftp_jellyfin.Auth.Middleware.{require_auth}

abbrev pub invalid_credentials : ApiError
invalid_credentials = record { status = 401; code = "invalid_credentials" }

-- What the database and the random source give to a new session.
pub record NewSession : Type 0 where
  pub id : ℕ
  pub token : Text

module _ (hash_token : Text → Text) (ttl_days : ℕ) (verify : Text → Text → Bool)
    (hash_password : Text → Text) where
  unfoldable pub sign_in : ℕ → NewSession → ℕ → Accounts → Accounts
  unfolding issue_session
  sign_in user_id new now a = (issue_session hash_token ttl_days new.id user_id new.token now a).0

  unfoldable pub login : Text → Text → NewSession → ℕ → Accounts → Result (Accounts × User)
  unfolding sign_in
  login email password new now a = do
    u ← or_throw (find_email email a.users) invalid_credentials
    throw_if (not (verify password u.password_hash)) invalid_credentials
    throw_if u.disabled forbidden
    ok (sign_in u.id new now a, u)

  unfoldable pub logout : Option Text → Accounts → Accounts
  unfolding destroy_session
  logout cookie a = destroy_session hash_token cookie a

  unfoldable pub me : Option SessionUser → Accounts → Result User
  me who a = do u ← or_throw who unauthorized; or_throw (find_user u.id a.users) unauthorized

  unfoldable pub redeem : Registration → ℕ → NewSession → ℕ → Accounts → Result (Accounts × User)
  unfolding redeem_invite sign_in
  redeem r id new now a = do
    (after, u) ← redeem_invite r id now a
    ok (sign_in u.id new now after, u)

  unfoldable pub update_profile : Option SessionUser → Text → Accounts → Result Accounts
  unfolding require_auth
  update_profile who name a = do
    me ← require_auth who
    ok (record a { users = update_users me.id (λ u. record u { name = name }) a.users })

  unfoldable pub change_password :
      Option SessionUser → Text → Text → NewSession → ℕ → Accounts → Result Accounts
  unfolding require_auth set_password destroy_all_sessions sign_in
  change_password who current password new now a = do
    me ← require_auth who
    u ← or_throw (find_user me.id a.users) unauthorized
    throw_if (not (verify current u.password_hash)) bad_request
    throw_if (text_eq current password) bad_request
    let changed = set_password u.id (hash_password password) a
    ok (sign_in u.id new now (destroy_all_sessions u.id changed))

  -- The number is the `endedCount` of the answer.
  unfoldable pub revoke_others :
      Option SessionUser → NewSession → ℕ → Accounts → Result (Accounts × ℕ)
  unfolding require_auth destroy_all_sessions sign_in
  revoke_others who new now a = do
    me ← require_auth who
    let before = count (λ s. s.user_id == me.id) a.sessions
    ok (sign_in me.id new now (destroy_all_sessions me.id a), before - 1)

  unfoldable pub reset_password : Text → Text → NewSession → ℕ → Accounts → Result (Accounts × User)
  unfolding redeem_password_reset sign_in
  reset_password token password new now a = do
    (after, user_id) ← redeem_password_reset hash_token token (hash_password password) now a
    u ← or_throw (find_user user_id after.users) internal
    ok (sign_in u.id new now after, u)
