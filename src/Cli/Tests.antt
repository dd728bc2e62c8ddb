-- ===== src/Cli/Tests.antt =====
-- The theorems on the command line at the first account: it is created, and its password changed.
use circleftp_jellyfin.Base.{ℕ, ◌≡◌, ◌≢◌, refl, List, [], ◌∷◌, none, some, true, false}
use mathlib.Core.List.{reverse}
use circleftp_jellyfin.Base.Text.{Text, codes, text_eq, text_eq_refl, is_space}
use circleftp_jellyfin.Base.Result.{ok}
use circleftp_jellyfin.Auth.Model.{Role, User, Accounts, find_email}
use circleftp_jellyfin.Auth.Session.{SessionUser, resolve_session}
use circleftp_jellyfin.Auth.Users.{normal_email}
use circleftp_jellyfin.Routes.Accounts.{NewSession, sign_in, login}
use circleftp_jellyfin.Cli.Parsing.{FlagValue, on, given, Flags, str, is_given}
use circleftp_jellyfin.Cli.{done, raw_email, role_of, user_create, user_passwd}
use circleftp_jellyfin.Cli.Laws.{user_create-login, user_passwd-evicts}

abbrev written : List (Text × FlagValue)
written = (codes "admin", on) ∷ (codes "email", given (codes "a@x")) ∷ []

abbrev flags : Flags
flags = record { positional = some []; values = reverse written }

abbrev accounts : Accounts
accounts = record { users = []; sessions = []; invites = []; resets = [] }

abbrev first : User
first = record {
  id = 1;
  email = codes "a@x";
  name = codes "a";
  password_hash = codes "random";
  role = Role.admin;
  disabled = false;
}

abbrev after : Accounts
after = record accounts { users = first ∷ [] }

created_first :
    user_create (λ e. some e) (λ p. p) flags none (codes "random") 1 accounts
    ≡ done (after, first, codes "random", true)
unfolding user_create is_space str is_given
created_first = refl

abbrev new : NewSession
new = record { id = 7; token = codes "t" }

user_create-login_example :
    (Role.admin ≡ role_of flags)
    × (login (λ t. t) 30 text_eq (λ p. p) (codes "a@x") (codes "random") new 5 after
        ≡ ok (sign_in (λ t. t) 30 text_eq (λ p. p) 1 new 5 after, first))
user_create-login_example =
    user_create-login (λ e. some e) (λ p. p) (λ t. t) 30 text_eq text_eq_refl flags none
      (codes "random") 1 accounts after first (codes "random") true new 5 created_first

abbrev renewed : Accounts
renewed = record accounts { users = record first { password_hash = codes "other" } ∷ [] }

password_changed :
    user_passwd (λ e. some e) (λ p. p) flags none (codes "other") after
    ≡ done (renewed, codes "other", true, 0)
unfolding user_passwd is_space str is_given
password_changed = refl

user_passwd-evicts_example :
    (raw : Text) × (u : User) × (raw_email flags none ≡ some raw)
    × (find_email (normal_email raw) after.users ≡ some u)
    × (find_email (normal_email raw) renewed.users
        ≡ some (record u { password_hash = codes "other" }))
    × ((token : Text) (later : ℕ) (other : SessionUser)
        → (resolve_session (λ t. t) (some token) later renewed).0 ≡ some other
        → other.id ≢ u.id)
user_passwd-evicts_example =
    user_passwd-evicts (λ e. some e) (λ p. p) (λ t. t) flags none (codes "other") after renewed
      (codes "other") true 0 password_changed
