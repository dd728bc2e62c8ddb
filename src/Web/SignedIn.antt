-- ===== src/Web/SignedIn.antt =====
-- packages/web/src/auth/AuthContext.tsx: who the browser shows as signed in, with the cookie that it
-- keeps, against the routes of routes/auth.ts. A request may be lost before the server has handled
-- it, or its reply afterwards; `fetch` then fails, and `apiFetch` throws an error whose status is 0.
pub mod Laws
mod Tests
use circleftp_jellyfin.Base.{ℕ, Option, none, some, Bool, true, false, if◌then◌else◌, ◌==◌}
use circleftp_jellyfin.Base.Text.{Text}
use circleftp_jellyfin.Base.Result.{ApiError, Result, ok, err}
use circleftp_jellyfin.Auth.Model.{User, Accounts}
use circleftp_jellyfin.Auth.Session.{SessionUser, resolve_session}
use circleftp_jellyfin.Routes.Accounts.{NewSession, login, logout, me}

pub data Passage : Type 0 where
  answered unreached reply_lost : Passage

-- `user`, `loading` and the session cookie.
pub record Browser : Type 0 where
  pub user : Option SessionUser
  pub loading : Bool
  pub cookie : Option Text

-- `toUserDto`, without the time of the creation.
abbrev pub to_user_dto : User → SessionUser
to_user_dto u = record { id = u.id; email = u.email; name = u.name; role = u.role }

-- How a request ends in the browser: with a value, or with an error of some status.
abbrev pub settled {ℓ κ} : {A : Type ℓ} {B : Type κ} → Result A → (A → B) → (ℕ → B) → B
settled (ok a) value error = value a
settled (err e) value error = error e.status

module _ (hash_token : Text → Text) (ttl_days : ℕ) (verify : Text → Text → Bool)
    (hash_password : Text → Text) where
  -- What `attachUser` leaves of the accounts, and `GET /auth/me` with it.
  abbrev pub attached : Option Text → ℕ → Accounts → Accounts
  attached cookie now a = (resolve_session hash_token cookie now a).1

  abbrev pub ask_me : Option Text → ℕ → Accounts → Result User
  ask_me cookie now a =
      me hash_token ttl_days verify hash_password (resolve_session hash_token cookie now a).0
        (attached cookie now a)

  -- The first request of a page.
  unfoldable pub load_user : Passage → ℕ → Browser × Accounts → Browser × Accounts
  load_user answered now (b, a) = (
    record b {
      user = settled (ask_me b.cookie now a) (λ u. some (to_user_dto u)) (λ _. none);
      loading = false;
    },
    attached b.cookie now a,
  )
  load_user unreached now (b, a) = (record b { user = none; loading = false }, a)
  load_user reply_lost now (b, a) =
      (record b { user = none; loading = false }, attached b.cookie now a)

  unfoldable pub refresh_user : Passage → ℕ → Browser × Accounts → Browser × Accounts
  refresh_user answered now (b, a) = (
    record b {
      user =
          settled (ask_me b.cookie now a) (λ u. some (to_user_dto u))
            (λ status. if status == 401 then none else b.user);
    },
    attached b.cookie now a,
  )
  refresh_user unreached now (b, a) = (b, a)
  refresh_user reply_lost now (b, a) = (b, attached b.cookie now a)

  -- `login` with a reply; the new token comes as the cookie.
  unfoldable pub log_in : Text → Text → NewSession → ℕ → Browser × Accounts → Browser × Accounts
  log_in email password new now (b, a) =
      let before = attached b.cookie now a in
      settled (login hash_token ttl_days verify hash_password email password new now before)
        (λ r. (record b { user = some (to_user_dto r.1); cookie = some new.token }, r.0))
        (λ _. (b, before))

  -- `logout`: `setUser(null)` is in its `finally`; the reply clears the cookie.
  unfoldable pub log_out : Passage → ℕ → Browser × Accounts → Browser × Accounts
  log_out answered now (b, a) = (
    record b { user = none; cookie = none },
    logout hash_token ttl_days verify hash_password b.cookie (attached b.cookie now a),
  )
  log_out unreached now (b, a) = (record b { user = none }, a)
  log_out reply_lost now (b, a) = (
    record b { user = none },
    logout hash_token ttl_days verify hash_password b.cookie (attached b.cookie now a),
  )
