-- ===== src/Routes/Admin.antt =====
-- packages/server/src/routes/admin.ts: the requests of administrators, behind `requireAdmin`, which
-- takes the caller from the session cookie. Requests have been parsed; the hash of a password, keys
-- and random codes are arguments. The two lists for display are left out.
pub mod Laws
mod Tests
use circleftp_jellyfin.Base.{ℕ, List, [], ◌∷◌, Option, none, some, Bool}
use circleftp_jellyfin.Base.Text.{Text}
use circleftp_jellyfin.Base.Result.{Result, ok, err, ◌>>=◌}
use circleftp_jellyfin.Auth.Model.{Role, Accounts}
use circleftp_jellyfin.Auth.Session.{SessionUser}
use circleftp_jellyfin.Auth.Users.{
  CreateUserOptions, CreateInviteOptions, create_user, create_invite,
}
use circleftp_jellyfin.Auth.Admin.{
  UpdateUserOptions, update_user, delete_user, revoke_sessions, revoke_invite,
}
use circleftp_jellyfin.Auth.Reset.{create_password_reset}
use circleftp_jellyfin.Auth.Middleware.{Request, attach_user, require_admin}

pub data AdminRequest : Type 0 where
  create_account : CreateUserOptions → ℕ → AdminRequest
  update_account : ℕ → UpdateUserOptions → AdminRequest
  delete_account : ℕ → AdminRequest
  end_sessions : ℕ → AdminRequest
  reset_link : ℕ → ℕ → ℕ → Text → AdminRequest
  new_invite : Option Role → Option ℕ → Option Text → ℕ → Text → AdminRequest
  drop_invite : ℕ → AdminRequest

-- The first part of an answer with more than the accounts.
abbrev pub accounts_of {ℓ} : {B : Type ℓ} → Result (Accounts × B) → Result Accounts
accounts_of (ok (a, b)) = ok a
accounts_of (err e) = err e

-- A request that is refused changes nothing.
abbrev pub settled : Accounts → Result Accounts → Accounts
settled a (ok a') = a'
settled a (err e) = a

module _ (hash_token : Text → Text) where
  -- A route, for the caller that passed the guard.
  unfoldable pub perform : SessionUser → ℕ → AdminRequest → Accounts → Result Accounts
  unfolding create_user update_user delete_user revoke_sessions create_password_reset create_invite
      revoke_invite
  perform who now (create_account o id) a = accounts_of (create_user o id a)
  perform who now (update_account id o) a = update_user id o who.id a
  perform who now (delete_account id) a = delete_user id who.id a
  perform who now (end_sessions id) a = accounts_of (revoke_sessions id a)
  perform who now (reset_link user_id hours id token) a =
      accounts_of (create_password_reset hash_token user_id (some who.id) hours id token now a)
  perform who now (new_invite role days remark id code) a =
      let options : CreateInviteOptions = record {
        role = role;
        expires_in_days = days;
        note = remark;
        created_by_id = some who.id;
      } in
      ok (create_invite options id code now a).0
  perform who now (drop_invite id) a = revoke_invite id a

  unfoldable pub handle_admin : Option SessionUser → ℕ → AdminRequest → Accounts → Result Accounts
  unfolding require_admin perform
  handle_admin caller now r a = do who ← require_admin caller; perform who now r a

  -- A request with its session cookie; `attachUser` may prune the session.
  unfoldable pub answered : Request → ℕ → AdminRequest → Accounts → Accounts
  unfolding attach_user handle_admin
  answered request now r a =
      let (caller, attached) = attach_user hash_token request now a in
      settled attached (handle_admin caller now r attached)

  unfoldable pub serve_admin : List (Request × ℕ × AdminRequest) → Accounts → Accounts
  unfolding answered
  serve_admin [] a = a
  serve_admin ((request, now, r) ∷ rs) a = serve_admin rs (answered request now r a)
