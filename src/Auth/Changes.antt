-- ===== src/Auth/Changes.antt =====
-- packages/server/src/auth/users.ts, admin.ts, passwordReset.ts and session.ts: the changes that they
-- make to the accounts, one after the other. A change that throws leaves the accounts as they were.
pub mod Kept
pub mod Invites
pub mod Resets
use circleftp_jellyfin.Base.{ℕ, List, [], ◌∷◌, Option}
use circleftp_jellyfin.Base.Text.{Text}
use circleftp_jellyfin.Base.Result.{Result, ok, err}
use circleftp_jellyfin.Auth.Model.{Accounts}
use circleftp_jellyfin.Auth.Users.{
  CreateUserOptions, CreateInviteOptions, Registration, create_user, set_password, create_invite,
  redeem_invite,
}
use circleftp_jellyfin.Auth.Admin.{UpdateUserOptions, update_user, delete_user, revoke_invite}
use circleftp_jellyfin.Auth.Reset.{
  create_password_reset, redeem_password_reset, prune_expired_resets,
}
use circleftp_jellyfin.Auth.Session.{
  issue_session, destroy_session, destroy_all_sessions, prune_expired_sessions,
}

pub data Change : Type 0 where
  registers : Registration → ℕ → ℕ → Change
  invites : CreateInviteOptions → ℕ → Text → ℕ → Change
  revokes_invite : ℕ → Change
  creates_user : CreateUserOptions → ℕ → Change
  sets_password : ℕ → Text → Change
  updates_user : ℕ → UpdateUserOptions → ℕ → Change
  deletes_user : ℕ → ℕ → Change
  issues_reset : ℕ → Option ℕ → ℕ → ℕ → Text → ℕ → Change
  redeems_reset : Text → Text → ℕ → Change
  prunes_resets : ℕ → Change
  signs_in : ℕ → ℕ → ℕ → Text → ℕ → Change
  signs_out : Option Text → Change
  signs_out_everywhere : ℕ → Change
  prunes_sessions : ℕ → Change

abbrev pub or_before : Accounts → Result Accounts → Accounts
or_before a (ok b) = b
or_before a (err e) = a

abbrev pub or_before_with {ℓ} : {B : Type ℓ} → Accounts → Result (Accounts × B) → Accounts
or_before_with a (ok (b, x)) = b
or_before_with a (err e) = a

module _ (hash_token : Text → Text) where
  unfoldable pub change : Change → Accounts → Accounts
  change (registers r id now) a = or_before_with a (redeem_invite r id now a)
  change (invites o id code now) a = (create_invite o id code now a).0
  change (revokes_invite id) a = or_before a (revoke_invite id a)
  change (creates_user o id) a = or_before_with a (create_user o id a)
  change (sets_password id hash) a = set_password id hash a
  change (updates_user id o current) a = or_before a (update_user id o current a)
  change (deletes_user id current) a = or_before a (delete_user id current a)
  change (issues_reset user_id by hours id token now) a =
      or_before_with a (create_password_reset hash_token user_id by hours id token now a)
  change (redeems_reset token hash now) a =
      or_before_with a (redeem_password_reset hash_token token hash now a)
  change (prunes_resets now) a = (prune_expired_resets now a).0
  change (signs_in days id user_id token now) a =
      (issue_session hash_token days id user_id token now a).0
  change (signs_out cookie) a = destroy_session hash_token cookie a
  change (signs_out_everywhere id) a = destroy_all_sessions id a
  change (prunes_sessions now) a = (prune_expired_sessions now a).0

  unfoldable pub change_all : List Change → Accounts → Accounts
  change_all [] a = a
  change_all (c ∷ cs) a = change_all cs (change c a)
