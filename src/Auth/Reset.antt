-- ===== src/Auth/Reset.antt =====
-- packages/server/src/auth/passwordReset.ts: the one-time links. The hash of a token is a
-- parameter; the random token, the hash of the new password, the keys and the clock are arguments.
pub mod Laws
use circleftp_jellyfin.Base.{
  ℕ, ◌+◌, ◌*◌, List, [], ◌∷◌, ◌++◌, Option, none, some, Bool, true, false, ◌&&◌, ◌||◌, not, map,
  count, filter, find, if◌then◌else◌, ◌==◌, leb, is_some, is_none,
}
use circleftp_jellyfin.Base.Text.{Text, text_eq}
use circleftp_jellyfin.Base.Result.{
  Result, ok, err, ◌>>=◌, ◌>>◌, throw_if, or_throw, bad_request, forbidden, not_found, conflict,
}
use circleftp_jellyfin.Auth.Model.{
  User, PasswordReset, Accounts, find_user, update_users, drop_sessions,
}

-- What `inspectPasswordReset` finds.
pub data ResetTokenCheck : Type 0 where
  valid : Text → Text → ResetTokenCheck
  unknown used expired account_disabled : ResetTokenCheck

-- `updateMany({ where: { id, usedAt: null } })`
abbrev pub is_open_reset : ℕ → PasswordReset → Bool
is_open_reset id r = r.id == id && is_none r.used_at

unfoldable pub claim_reset : ℕ → ℕ → List PasswordReset → List PasswordReset × ℕ
claim_reset id now rs = (
  map (λ r. if is_open_reset id r then record r { used_at = some now } else r) rs,
  count (is_open_reset id) rs,
)

module _ (hash_token : Text → Text) where
  unfoldable pub create_password_reset :
      ℕ → Option ℕ → ℕ → ℕ → Text → ℕ → Accounts → Result (Accounts × PasswordReset)
  create_password_reset user_id issued_by_id expires_in_hours id token now a = do
    u ← or_throw (find_user user_id a.users) not_found
    let row : PasswordReset = record {
      id = id;
      token_hash = hash_token token;
      user_id = user_id;
      issued_by_id = issued_by_id;
      expires_at = now + expires_in_hours * 60 * 60 * 1000;
      used_at = none;
    }
    let others = filter (λ r. not (r.user_id == user_id && is_none r.used_at)) a.resets
    ok (record a { resets = others ++ row ∷ [] }, row)

  abbrev pub find_reset : Text → List PasswordReset → Option PasswordReset
  find_reset token = find (λ r. text_eq r.token_hash (hash_token token))

  -- `inspectPasswordReset`. The user of a reset exists, since resets go with their user; where the
  -- row were missing the answer would be `unknown`.
  unfoldable pub inspect_password_reset : Text → ℕ → Accounts → ResetTokenCheck
  inspect_password_reset token now a = elim (find_reset token a.resets) [
    | none ↦ unknown
    | some r ↦
        if is_some r.used_at
        then used
        else if leb r.expires_at now
        then expired
        else elim (find_user r.user_id a.users) [
          | none ↦ unknown
          | some u ↦ if u.disabled then account_disabled else valid u.name u.email
        ]
  ]

  -- `redeemPasswordReset`; an error rolls the transaction back.
  unfoldable pub redeem_password_reset : Text → Text → ℕ → Accounts → Result (Accounts × ℕ)
  redeem_password_reset token password_hash now a = do
    r ← or_throw (find_reset token a.resets) bad_request
    throw_if (is_some r.used_at) bad_request
    throw_if (leb r.expires_at now) bad_request
    u ← or_throw (find_user r.user_id a.users) bad_request
    throw_if u.disabled forbidden
    let claimed = claim_reset r.id now a.resets
    throw_if (claimed.1 == 0) (conflict "reset_used")
    ok (
      record a {
        users = update_users r.user_id (λ x. record x { password_hash = password_hash }) a.users;
        sessions = drop_sessions r.user_id a.sessions;
        resets = claimed.0;
      },
      r.user_id,
    )

unfoldable pub prune_expired_resets : ℕ → Accounts → Accounts × ℕ
prune_expired_resets now a = (
  record a { resets = filter (λ r. not (leb r.expires_at now || is_some r.used_at)) a.resets },
  count (λ r. leb r.expires_at now || is_some r.used_at) a.resets,
)
