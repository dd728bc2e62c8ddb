-- ===== src/Auth/Admin.antt =====
-- packages/server/src/auth/admin.ts: the changes of accounts and invites by an administrator.
pub mod Lockout
pub mod Race
pub mod Listing
pub mod Invites
use circleftp_jellyfin.Base.{
  ℕ, List, Option, none, some, Bool, true, false, ◌&&◌, not, count, filter, find, length,
  if◌then◌else◌, ◌==◌, is_some, get_or_else,
}
use circleftp_jellyfin.Base.Text.{Text}
use circleftp_jellyfin.Base.Result.{
  Result, ok, err, ◌>>=◌, ◌>>◌, throw_if, or_throw, bad_request, not_found, conflict,
}
use circleftp_jellyfin.Auth.Model.{
  Role, admin, user, is_admin, User, Invite, Accounts, find_user, update_users, drop_sessions,
  remove_user,
}

-- An administrator who can sign in.
abbrev pub is_active_admin : User → Bool
is_active_admin u = is_admin u.role && not u.disabled

unfoldable pub active_admin_count : Option ℕ → List User → ℕ
active_admin_count none us = count is_active_admin us
active_admin_count (some except) us = count (λ u. is_active_admin u && not (u.id == except)) us

-- Whether `assertNotLastAdmin` throws.
unfoldable pub is_last_admin : ℕ → List User → Bool
is_last_admin id us = elim (find_user id us) [
  | none ↦ false
  | some u ↦ is_active_admin u && active_admin_count (some id) us == 0
]

pub record UpdateUserOptions : Type 0 where
  pub name : Option Text
  pub role : Option Role
  pub disabled : Option Bool

abbrev pub is_demotion : Option Role → Bool
is_demotion (some user) = true
is_demotion _ = false

abbrev pub is_disabling : Option Bool → Bool
is_disabling (some true) = true
is_disabling _ = false

unfoldable pub change_user : UpdateUserOptions → User → User
change_user o u = record u {
  name = get_or_else o.name u.name;
  role = get_or_else o.role u.role;
  disabled = get_or_else o.disabled u.disabled;
}

-- The checks of `updateUser`.
unfoldable pub check_update : ℕ → UpdateUserOptions → ℕ → Accounts → Result (Unit {0})
check_update id o current a = do
  u ← or_throw (find_user id a.users) not_found
  throw_if (is_demotion o.role && is_admin u.role && is_last_admin id a.users)
      (conflict "last_admin")
  throw_if (is_disabling o.disabled && id == current) bad_request
  throw_if (is_disabling o.disabled && is_last_admin id a.users) (conflict "last_admin")

-- Its writes.
unfoldable pub apply_update : ℕ → UpdateUserOptions → Accounts → Accounts
apply_update id o a = record a {
  users = update_users id (change_user o) a.users;
  sessions = if is_disabling o.disabled then drop_sessions id a.sessions else a.sessions;
}

unfoldable pub update_user : ℕ → UpdateUserOptions → ℕ → Accounts → Result Accounts
update_user id o current a = do check_update id o current a; ok (apply_update id o a)

unfoldable pub delete_user : ℕ → ℕ → Accounts → Result Accounts
delete_user id current a = do
  throw_if (id == current) bad_request
  u ← or_throw (find_user id a.users) not_found
  throw_if (is_last_admin id a.users) (conflict "last_admin")
  ok (remove_user id a)

unfoldable pub revoke_sessions : ℕ → Accounts → Result (Accounts × ℕ)
revoke_sessions id a = do
  u ← or_throw (find_user id a.users) not_found
  ok (record a { sessions = drop_sessions id a.sessions }, count (λ s. s.user_id == id) a.sessions)

unfoldable pub revoke_invite : ℕ → Accounts → Result Accounts
revoke_invite id a = do
  invite ← or_throw (find (λ i. i.id == id) a.invites) not_found
  throw_if (is_some invite.used_by_id) (conflict "invite_used")
  ok (record a { invites = filter (λ i. not (i.id == id)) a.invites })
