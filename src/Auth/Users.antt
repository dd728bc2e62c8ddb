-- ===== src/Auth/Users.antt =====
-- packages/server/src/auth/users.ts: accounts and invites. The hash of a password, which
-- `hashPassword` gives, the keys of new rows and random codes are arguments; `none` for an option
-- is an option that is not given.
pub mod Laws
use circleftp_jellyfin.Base.{
  ℕ, ◌+◌, ◌*◌, List, [], ◌∷◌, ◌++◌, Option, none, some, Bool, true, false, ◌&&◌, map, find, count,
  if◌then◌else◌, ◌==◌, leb, is_some, is_none, get_or_else,
}
use circleftp_jellyfin.Base.Text.{Text, text_eq, trim, to_lower_char, to_upper_char}
use circleftp_jellyfin.Base.Result.{
  Result, ok, err, ◌>>=◌, ◌>>◌, throw_if, or_throw, bad_request, conflict,
}
use circleftp_jellyfin.Auth.Model.{
  Role, admin, user, User, Invite, Accounts, find_email, update_users,
}

abbrev pub normal_email : Text → Text
normal_email email = map to_lower_char (trim email)

pub record CreateUserOptions : Type 0 where
  pub email : Text
  pub name : Text
  pub password_hash : Text
  pub role : Option Role

abbrev pub new_user : ℕ → Text → Text → Text → Role → User
new_user id email name password_hash role = record {
  id = id;
  email = email;
  name = name;
  password_hash = password_hash;
  role = role;
  disabled = false;
}

unfoldable pub create_user : CreateUserOptions → ℕ → Accounts → Result (Accounts × User)
create_user o id a = do
  let email = normal_email o.email
  throw_if (is_some (find_email email a.users)) (conflict "email_taken")
  let u = new_user id email (trim o.name) o.password_hash (get_or_else o.role user)
  ok (record a { users = a.users ++ u ∷ [] }, u)

unfoldable pub set_password : ℕ → Text → Accounts → Accounts
set_password id password_hash a = record a {
  users = update_users id (λ u. record u { password_hash = password_hash }) a.users;
}

pub record CreateInviteOptions : Type 0 where
  pub role : Option Role
  pub expires_in_days : Option ℕ
  pub note : Option Text
  pub created_by_id : Option ℕ

unfoldable pub create_invite : CreateInviteOptions → ℕ → Text → ℕ → Accounts → Accounts × Invite
create_invite o id code now a =
    let i : Invite = record {
      id = id;
      code = code;
      role = get_or_else o.role user;
      note = o.note;
      expires_at = now + get_or_else o.expires_in_days 14 * 24 * 60 * 60 * 1000;
      created_by_id = o.created_by_id;
      used_by_id = none;
      used_at = none;
    } in
    (record a { invites = a.invites ++ i ∷ [] }, i)

abbrev pub find_invite : Text → List Invite → Option Invite
find_invite code = find (λ i. text_eq i.code code)

-- `updateMany({ where: { id, usedById: null } })`
abbrev pub is_unused : ℕ → Invite → Bool
is_unused id i = i.id == id && is_none i.used_by_id

unfoldable pub claim_invite : ℕ → ℕ → ℕ → List Invite → List Invite × ℕ
claim_invite id user_id now is = (
  map
      (λ i.
        if is_unused id i then record i { used_by_id = some user_id; used_at = some now } else i)
      is,
  count (is_unused id) is,
)

pub record Registration : Type 0 where
  pub code : Text
  pub name : Text
  pub email : Text
  pub password_hash : Text

-- `redeemInvite`; an error rolls the transaction back.
unfoldable pub redeem_invite : Registration → ℕ → ℕ → Accounts → Result (Accounts × User)
redeem_invite r id now a = do
  let code = map to_upper_char (trim r.code)
  let email = normal_email r.email
  invite ← or_throw (find_invite code a.invites) bad_request
  throw_if (is_some invite.used_by_id) bad_request
  throw_if (leb invite.expires_at now) bad_request
  throw_if (is_some (find_email email a.users)) (conflict "email_taken")
  let u = new_user id email (trim r.name) r.password_hash invite.role
  let claimed = claim_invite invite.id id now a.invites
  throw_if (claimed.1 == 0) (conflict "invite_used")
  ok (record a { users = a.users ++ u ∷ []; invites = claimed.0 }, u)
