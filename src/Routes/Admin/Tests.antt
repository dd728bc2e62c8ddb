-- ===== src/Routes/Admin/Tests.antt =====
-- The theorem on routes/admin.ts at concrete inputs.
use circleftp_jellyfin.Base.{ℕ, refl, List, [], ◌∷◌, none, some, false, arith}
use circleftp_jellyfin.Base.Text.{codes}
use circleftp_jellyfin.Auth.Model.{admin, user, User, Accounts}
use circleftp_jellyfin.Auth.Middleware.{Request, attach_user}
use circleftp_jellyfin.Auth.Session.{resolve_session}
use circleftp_jellyfin.Routes.Admin.{
  AdminRequest, create_account, update_account, delete_account, serve_admin,
}
use circleftp_jellyfin.Routes.Admin.Laws.{IsGoverned, AllNew, serve_admin-IsGoverned}

abbrev chief : User
chief = record {
  id = 1;
  email = codes "a@x";
  name = codes "a";
  password_hash = codes "p";
  role = admin;
  disabled = false;
}

abbrev accounts : Accounts
accounts = record {
  users = chief ∷ [];
  sessions = record { id = 1; token_hash = codes "s"; user_id = 1; expires_at = 100 } ∷ [];
  invites = [];
  resets = [];
}

abbrev shown : Request
shown = record {
  cookie = some (codes "s");
  method = codes "POST";
  requested_with = codes "circleftp-jellyfin";
}

-- A second administrator is created; then the first demotes itself, and may not do more.
abbrev requests : List (Request × ℕ × AdminRequest)
requests =
    (
      shown,
      10,
      create_account
          (record {
            email = codes "b@x";
            name = codes "b";
            password_hash = codes "q";
            role = some admin;
          })
          2,
    )
    ∷ (shown, 11, update_account 1 (record { name = none; role = some user; disabled = none }))
    ∷ (shown, 12, delete_account 2)
    ∷ []

all_new : AllNew (λ t. t) requests accounts
unfolding attach_user resolve_session
all_new = (refl, (tt, (tt, tt)))

serve_admin-IsGoverned_example : IsGoverned (serve_admin (λ t. t) requests accounts).users
serve_admin-IsGoverned_example =
    serve_admin-IsGoverned (λ t. t) requests accounts all_new
      (record { ids = (refl, tt); governed = omega arith })
