-- ===== src/Auth/Admin/Listing.antt =====
-- packages/server/src/auth/admin.ts: what the lists of users and invites show. The times that are only
-- displayed are left out; a table holds its rows in the order of their creation.
use circleftp_jellyfin.Base.{
  ℕ, List, ◌++◌, Option, none, some, Bool, not, map, count, filter, take, if◌then◌else◌, ◌==◌, leb,
  is_some,
}
use circleftp_jellyfin.Base.Text.{Text}
use mathlib.Core.List.{reverse}
use circleftp_jellyfin.Base.Result.{Result, ok, ◌>>=◌, or_throw, not_found}
use circleftp_jellyfin.Auth.Model.{Role, is_admin, User, Session, Invite, Accounts, find_user}

pub record AdminUserDto : Type 0 where
  pub id : ℕ
  pub email : Text
  pub name : Text
  pub role : Role
  pub disabled : Bool
  pub session_count : ℕ
  pub is_self : Bool

unfoldable pub to_admin_user_dto : List Session → ℕ → User → AdminUserDto
to_admin_user_dto sessions current u = record {
  id = u.id;
  email = u.email;
  name = u.name;
  role = u.role;
  disabled = u.disabled;
  session_count = count (λ s. s.user_id == u.id) sessions;
  is_self = u.id == current;
}

-- `orderBy: [{ role: 'asc' }, { createdAt: 'asc' }]`: ADMIN comes before USER.
unfoldable pub by_role : List User → List User
by_role us = filter (λ u. is_admin u.role) us ++ filter (λ u. not (is_admin u.role)) us

unfoldable pub list_users : ℕ → Accounts → List AdminUserDto
unfolding to_admin_user_dto by_role
list_users current a = map (to_admin_user_dto a.sessions current) (by_role a.users)

unfoldable pub get_admin_user : ℕ → ℕ → Accounts → Result AdminUserDto
unfolding to_admin_user_dto
get_admin_user id current a = do
  u ← or_throw (find_user id a.users) not_found
  ok (to_admin_user_dto a.sessions current u)

pub data InviteStatus : Type 0 where
  pending used expired : InviteStatus

pub record InviteDto : Type 0 where
  pub id : ℕ
  pub code : Text
  pub role : Role
  pub note : Option Text
  pub created_by_name : Option Text
  pub used_by_name : Option Text
  pub status : InviteStatus

unfoldable pub invite_status : ℕ → Invite → InviteStatus
invite_status now i =
    if is_some i.used_by_id then used else if leb i.expires_at now then expired else pending

-- `include: { createdBy: true }`: the row that a foreign key names.
unfoldable pub name_of : List User → Option ℕ → Option Text
name_of us none = none
name_of us (some id) = elim (find_user id us) [ none ↦ none | some u ↦ some u.name ]

unfoldable pub to_invite_dto : List User → ℕ → Invite → InviteDto
unfolding invite_status name_of
to_invite_dto us now i = record {
  id = i.id;
  code = i.code;
  role = i.role;
  note = i.note;
  created_by_name = name_of us i.created_by_id;
  used_by_name = name_of us i.used_by_id;
  status = invite_status now i;
}

-- `orderBy: { createdAt: 'desc' }, take: 100`
unfoldable pub list_invites : ℕ → Accounts → List InviteDto
unfolding to_invite_dto
list_invites now a = map (to_invite_dto a.users now) (take 100 (reverse a.invites))
