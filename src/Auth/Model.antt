-- ===== src/Auth/Model.antt =====
-- The rows of the tables `users`, `sessions`, `invites` and `password_resets`
-- (packages/server/prisma/schema.prisma), with the deletion of a user and what its foreign keys do.
use circleftp_jellyfin.Base.{
  ℕ, List, Option, none, some, Bool, true, false, not, map, filter, find, if◌then◌else◌, ◌==◌,
}
use circleftp_jellyfin.Base.Text.{Text, text_eq}

pub data Role : Type 0 where
  admin user : Role

abbrev pub is_admin : Role → Bool
is_admin admin = true
is_admin user = false

pub record User : Type 0 where
  pub id : ℕ
  pub email : Text
  pub name : Text
  pub password_hash : Text
  pub role : Role
  pub disabled : Bool

pub record Session : Type 0 where
  pub id : ℕ
  pub token_hash : Text
  pub user_id : ℕ
  pub expires_at : ℕ

pub record Invite : Type 0 where
  pub id : ℕ
  pub code : Text
  pub role : Role
  pub note : Option Text
  pub expires_at : ℕ
  pub created_by_id : Option ℕ
  pub used_by_id : Option ℕ
  pub used_at : Option ℕ

pub record PasswordReset : Type 0 where
  pub id : ℕ
  pub token_hash : Text
  pub user_id : ℕ
  pub issued_by_id : Option ℕ
  pub expires_at : ℕ
  pub used_at : Option ℕ

pub record Accounts : Type 0 where
  pub users : List User
  pub sessions : List Session
  pub invites : List Invite
  pub resets : List PasswordReset

abbrev pub find_user : ℕ → List User → Option User
find_user id = find (λ u. u.id == id)

abbrev pub find_email : Text → List User → Option User
find_email email = find (λ u. text_eq u.email email)

abbrev pub update_users : ℕ → (User → User) → List User → List User
update_users id f = map (λ u. if u.id == id then f u else u)

-- `session.deleteMany({ where: { userId } })`
abbrev pub drop_sessions : ℕ → List Session → List Session
drop_sessions id = filter (λ s. not (s.user_id == id))

-- `onDelete: SetNull`
abbrev pub set_null : ℕ → Option ℕ → Option ℕ
set_null id none = none
set_null id (some k) = if k == id then none else some k

abbrev pub forget_in_invite : ℕ → Invite → Invite
forget_in_invite id i = record i {
  created_by_id = set_null id i.created_by_id;
  used_by_id = set_null id i.used_by_id;
}

abbrev pub forget_in_reset : ℕ → PasswordReset → PasswordReset
forget_in_reset id r = record r { issued_by_id = set_null id r.issued_by_id }

-- `user.delete`: sessions and resets cascade, the references of the others are set to null.
unfoldable pub remove_user : ℕ → Accounts → Accounts
remove_user id a = record {
  users = filter (λ u. not (u.id == id)) a.users;
  sessions = drop_sessions id a.sessions;
  invites = map (forget_in_invite id) a.invites;
  resets = map (forget_in_reset id) (filter (λ r. not (r.user_id == id)) a.resets);
}
