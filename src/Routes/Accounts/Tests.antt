-- ===== src/Routes/Accounts/Tests.antt =====
-- The theorems on routes/account.ts at concrete inputs.
use circleftp_jellyfin.Base.{ℕ, ◌≡◌, ◌≢◌, refl, [], ◌∷◌, some, true, false}
use circleftp_jellyfin.Base.Text.{Text, codes, text_eq}
use circleftp_jellyfin.Base.Result.{Result, ok, err}
use circleftp_jellyfin.Auth.Model.{user, User, Accounts, find_user}
use circleftp_jellyfin.Auth.Session.{SessionUser, resolve_session}
use circleftp_jellyfin.Auth.Middleware.{require_auth}
use circleftp_jellyfin.Routes.Accounts.{NewSession, login, change_password, invalid_credentials}
use circleftp_jellyfin.Routes.Accounts.Laws.{change_password-evicts}

abbrev owner : User
owner = record {
  id = 2;
  email = codes "b@x";
  name = codes "b";
  password_hash = codes "p";
  role = user;
  disabled = false;
}

abbrev accounts : Accounts
accounts = record {
  users = owner ∷ [];
  sessions = record { id = 1; token_hash = codes "s"; user_id = 2; expires_at = 100 } ∷ [];
  invites = [];
  resets = [];
}

abbrev caller : SessionUser
caller = record { id = 2; email = codes "b@x"; name = codes "b"; role = user }

abbrev new : NewSession
new = record { id = 3; token = codes "t" }

abbrev value : Result Accounts → Accounts
value (ok a) = a
value (err e) = accounts

abbrev changed : Accounts
changed = value (
    change_password (λ t. t) 30 text_eq (λ t. t) (some caller) (codes "p") (codes "q") new 50
      accounts)

wrong_password :
    login (λ t. t) 30 text_eq (λ t. t) (codes "b@x") (codes "q") new 50 accounts
    ≡ err invalid_credentials
unfolding login
wrong_password = refl

change_password-evicts_example :
    ((u : User) × (find_user 2 accounts.users ≡ some u)
      × (text_eq (codes "p") u.password_hash ≡ true)
      × (find_user 2 changed.users ≡ some (record u { password_hash = codes "q" })))
    × ((token : Text) (later : ℕ) (other : SessionUser)
        → text_eq (codes "t") token ≡ false
        → (resolve_session (λ t. t) (some token) later changed).0 ≡ some other
        → other.id ≢ 2)
unfolding change_password require_auth
change_password-evicts_example =
    change_password-evicts (λ t. t) 30 text_eq (λ t. t) caller (codes "p") (codes "q") new 50
      accounts changed refl
