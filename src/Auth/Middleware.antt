-- ===== src/Auth/Middleware.antt =====
-- packages/server/src/auth/middleware.ts: the guards of a request. The signed cookie, the method and
-- the header `x-requested-with` of the request are its fields, a missing header being empty; the
-- rate limits of a library are left out.
pub mod Laws
use circleftp_jellyfin.Base.{ℕ, Option, none, some, ◌&&◌, ◌||◌, not}
use circleftp_jellyfin.Base.Text.{Text, codes, text_eq}
use circleftp_jellyfin.Base.Result.{
  Result, err, ok, ◌>>=◌, ◌>>◌, throw_if, or_throw, unauthorized, forbidden,
}
use circleftp_jellyfin.Auth.Model.{is_admin, Accounts}
use circleftp_jellyfin.Auth.Session.{SessionUser, resolve_session}

pub record Request : Type 0 where
  pub cookie : Option Text
  pub method : Text
  pub requested_with : Text

-- `attachUser`: `req.user`, and the accounts after a pruned session.
unfoldable pub attach_user : (Text → Text) → Request → ℕ → Accounts → Option SessionUser × Accounts
attach_user hash_token r now a = resolve_session hash_token r.cookie now a

unfoldable pub require_auth : Option SessionUser → Result SessionUser
require_auth who = or_throw who unauthorized

unfoldable pub require_admin : Option SessionUser → Result SessionUser
require_admin who = do
  u ← or_throw who unauthorized
  throw_if (not (is_admin u.role)) forbidden
  ok u

unfoldable pub require_same_origin : Request → Result (Unit {0})
require_same_origin r =
    throw_if
      (not (
          text_eq r.method (codes "GET")
          || text_eq r.method (codes "HEAD")
          || text_eq r.method (codes "OPTIONS"))
        && not (text_eq r.requested_with (codes "circleftp-jellyfin")))
      forbidden
