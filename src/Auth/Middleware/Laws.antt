-- ===== src/Auth/Middleware/Laws.antt =====
-- Who passes the guards of auth/middleware.ts.
use circleftp_jellyfin.Base.{
  ℕ, ◌≡◌, Option, none, some, true, arith, Option-cases, Bool-cases, inl, inr,
}
use circleftp_jellyfin.Base.Text.{Text}
use circleftp_jellyfin.Base.Result.{ok}
use circleftp_jellyfin.Auth.Model.{is_admin, Accounts}
use circleftp_jellyfin.Auth.Session.{SessionUser, resolve_session}
use circleftp_jellyfin.Auth.Session.Laws.{LiveAs, resolve_session-LiveAs}
use circleftp_jellyfin.Auth.Middleware.{Request, attach_user, require_admin}

require_admin_inv :
    (o : Option SessionUser) (who : SessionUser)
    → require_admin o ≡ ok who
    → (o ≡ some who) × (is_admin who.role ≡ true)
unfolding require_admin
require_admin_inv none who h = ground arith
require_admin_inv (some u) who h = elim (Bool-cases (is_admin u.role)) [
  | inl e ↦ (ground arith, ground arith)
  | inr e ↦ ground arith
]

no_cookie :
    (hash_token : Text → Text) (now : ℕ) (a : Accounts) (who : SessionUser)
    → (resolve_session hash_token none now a).0 ≡ some who
    → ⊥
unfolding resolve_session
no_cookie hash_token now a who h = cc

-- Whoever passes the guard for administrators has shown the token of a session that has not expired,
-- of an account that is not disabled, and is an administrator.
pub require_admin-LiveAs :
    (hash_token : Text → Text) (r : Request) (now : ℕ) (a : Accounts) (who : SessionUser)
    → require_admin (attach_user hash_token r now a).0 ≡ ok who
    → (token : Text) × (r.cookie ≡ some token)
      × LiveAs hash_token token now a who
      × (is_admin who.role ≡ true)
unfolding attach_user
require_admin-LiveAs hash_token r now a who h =
    let (found, role) = require_admin_inv (attach_user hash_token r now a).0 who h in
    elim (Option-cases r.cookie) [
      | inl e ↦ absurd (no_cookie hash_token now a who (rw⁻¹ e found))
      | inr (token, e) ↦
          (token, e, resolve_session-LiveAs hash_token token now a who (rw⁻¹ e found), role)
    ]
