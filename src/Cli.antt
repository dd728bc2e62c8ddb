-- ===== src/Cli.antt =====
-- packages/server/src/cli/manage.ts: the commands on accounts and invites. The schema of an email and
-- the hash of a password are parameters; an answer at the terminal, random passwords and codes, and
-- the keys of new rows are arguments. What is printed is left out, and so is `user:list`.
pub mod Parsing
pub mod Laws
mod Tests
use circleftp_jellyfin.Base.{
  ℕ, List, [], ◌∷◌, Option, none, some, Bool, true, false, ◌&&◌, ◌||◌, not, map, count,
  if◌then◌else◌, ◌==◌, leb, length,
}
use circleftp_jellyfin.Base.Text.{Text, codes, text_eq, trim, to_lower_char}
use circleftp_jellyfin.Base.Result.{ApiError, Result, ok, err}
use circleftp_jellyfin.Auth.Model.{Role, admin, user, User, Accounts, find_email, drop_sessions}
use circleftp_jellyfin.Auth.Users.{CreateUserOptions, create_user, set_password}
use circleftp_jellyfin.Cli.Parsing.{Flags, str, is_given}

-- A command ends, or is left by a `CliError` or an `ApiError`.
pub data Outcome {ℓ} (A : Type ℓ) : Type ℓ where
  cli_error : Outcome A
  api_error : ApiError → Outcome A
  done : A → Outcome A

infixl 5 ◌>>=◌
abbrev pub ◌>>=◌ {ℓ κ} : {V : Type ℓ} {W : Type κ} → Outcome V → (V → Outcome W) → Outcome W
cli_error >>= next = cli_error
api_error e >>= next = api_error e
done value >>= next = next value

-- `if (!o) fail(...)`
abbrev pub or_fail {ℓ} : {A : Type ℓ} → Option A → Outcome A
or_fail none = cli_error
or_fail (some a) = done a

abbrev pub called {ℓ} : {A : Type ℓ} → Result A → Outcome A
called (err e) = api_error e
called (ok a) = done a

-- A text that is absent or empty is falsy.
abbrev pub if_truthy : Option Text → Option Text
if_truthy none = none
if_truthy (some []) = none
if_truthy (some (c ∷ s)) = some (c ∷ s)

-- `passwordSchema` of packages/shared/src/schemas.ts
unfoldable pub is_password : Text → Bool
is_password p = leb 10 (length p) && leb (length p) 200

-- The password, and whether it is the random one.
unfoldable pub resolve_password : Flags → Text → Outcome (Text × Bool)
unfolding is_password
resolve_password flags random = elim (if_truthy (str flags (codes "password"))) [
  | none ↦ done (random, true)
  | some provided ↦ if is_password provided then done (provided, false) else cli_error
]

-- `--email`, or what is typed where there is a terminal.
unfoldable pub raw_email : Flags → Option Text → Option Text
raw_email flags typed =
    if_truthy (elim (str flags (codes "email")) [ none ↦ typed | some e ↦ some e ])

-- `email.split('@')[0]`
unfoldable pub before_at : Text → Text
before_at [] = []
before_at (c ∷ s) = let rest = before_at s in if c == b'@' then [] else c ∷ rest

unfoldable pub role_of : Flags → Role
role_of flags = if is_given flags (codes "admin") then admin else elim (str flags (codes "role")) [
  | none ↦ user
  | some role ↦ if text_eq role (codes "ADMIN") then admin else user
]

unfoldable pub account_options : Flags → Text → Text → CreateUserOptions
unfolding before_at role_of
account_options flags email password_hash = record {
  email = email;
  name = elim (str flags (codes "name")) [ none ↦ before_at email | some n ↦ n ];
  password_hash = password_hash;
  role = some (role_of flags);
}

module _ (email_schema : Text → Option Text) (hash_password : Text → Text) where
  -- The account, its password, and whether that is shown.
  unfoldable pub user_create :
      Flags → Option Text → Text → ℕ → Accounts → Outcome (Accounts × User × Text × Bool)
  unfolding raw_email account_options resolve_password create_user
  user_create flags typed random id a = do
    raw ← or_fail (raw_email flags typed)
    email ← or_fail (email_schema raw)
    (password, generated) ← resolve_password flags random
    (after, u) ← called (create_user (account_options flags email (hash_password password)) id a)
    done (after, u, password, generated)

  -- The password, whether that is shown, and the number of sessions that have ended.
  unfoldable pub user_passwd :
      Flags → Option Text → Text → Accounts → Outcome (Accounts × Text × Bool × ℕ)
  unfolding raw_email resolve_password set_password
  user_passwd flags typed random a = do
    raw ← or_fail (raw_email flags typed)
    let email = map to_lower_char (trim raw)
    u ← or_fail (find_email email a.users)
    (password, generated) ← resolve_password flags random
    let changed = set_password u.id (hash_password password) a
    done (
      record changed { sessions = drop_sessions u.id changed.sessions },
      password,
      generated,
      count (λ s. s.user_id == u.id) changed.sessions,
    )
