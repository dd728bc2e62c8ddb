-- ===== src/Web/Users/Tests.antt =====
-- The theorem on the table of users at an administrator and a user.
use circleftp_jellyfin.Base.{refl, [], ◌∷◌, false}
use circleftp_jellyfin.Base.Text.{codes}
use circleftp_jellyfin.Auth.Model.{admin, user, User, Accounts}
use circleftp_jellyfin.Auth.Session.{SessionUser}
use circleftp_jellyfin.Auth.Admin.Listing.{AdminUserDto, to_admin_user_dto, list_users}
use circleftp_jellyfin.Web.Users.{role_button, disable_button, delete_button}
use circleftp_jellyfin.Web.Users.Laws.{Agrees, user_buttons-Agrees}

abbrev chief : User
chief = record {
  id = 1;
  email = codes "a@x";
  name = codes "a";
  password_hash = codes "p";
  role = admin;
  disabled = false;
}

abbrev guest : User
guest = record chief { id = 2; email = codes "b@x"; role = user }

abbrev accounts : Accounts
accounts = record { users = guest ∷ chief ∷ []; sessions = []; invites = []; resets = [] }

abbrev caller : SessionUser
caller = record { id = 1; email = codes "a@x"; name = codes "a"; role = admin }

abbrev row : AdminUserDto
row = to_admin_user_dto [] 1 chief

user_buttons-Agrees_example :
    Agrees (λ t. t) caller 10 accounts (role_button false (list_users 1 accounts) row)
    × Agrees (λ t. t) caller 10 accounts (disable_button false (list_users 1 accounts) row)
    × Agrees (λ t. t) caller 10 accounts (delete_button false (list_users 1 accounts) row)
user_buttons-Agrees_example =
    user_buttons-Agrees (λ t. t) caller 10 accounts chief (refl, (refl, tt)) refl (λ e. refl)
