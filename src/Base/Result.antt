-- ===== src/Base/Result.antt =====
-- lib/errors.ts: fallible operations return a value or the `ApiError` that they throw.
use mathlib.Core.Bool.{Bool, true, false}
use mathlib.Core.Option.{Option, none, some}
use Prim.Native.Nat.{ℕ}
use Prim.Native.String.{String}

-- The `status` and the `code` of an `ApiError`; the message, which no code reads, is left out.
pub record ApiError : Type 0 where
  pub status : ℕ
  pub code : String

abbrev pub bad_request : ApiError
bad_request = record { status = 400; code = "bad_request" }

abbrev pub unauthorized : ApiError
unauthorized = record { status = 401; code = "unauthorized" }

abbrev pub forbidden : ApiError
forbidden = record { status = 403; code = "forbidden" }

abbrev pub not_found : ApiError
not_found = record { status = 404; code = "not_found" }

abbrev pub conflict : String → ApiError
conflict code = record { status = 409; code = code }

abbrev pub too_many_requests : ApiError
too_many_requests = record { status = 429; code = "rate_limited" }

abbrev pub upstream : ApiError
upstream = record { status = 502; code = "upstream_error" }

abbrev pub internal : ApiError
internal = record { status = 500; code = "internal_error" }

pub data Result {ℓ} (A : Type ℓ) : Type ℓ where
  err : ApiError → Result A
  ok : A → Result A

-- `if (!o) throw e;`
abbrev pub or_throw {ℓ} : {A : Type ℓ} → Option A → ApiError → Result A
or_throw none e = err e
or_throw (some a) e = ok a

-- `if (b) throw e;`
abbrev pub throw_if : Bool → ApiError → Result (Unit {0})
throw_if true e = err e
throw_if false e = ok tt

-- What follows a call that may throw.
infixl 5 ◌>>=◌
abbrev pub ◌>>=◌ {ℓ κ} : {V : Type ℓ} {W : Type κ} → Result V → (V → Result W) → Result W
err thrown >>= next = err thrown
ok value >>= next = next value

-- What follows a check.
infixl 5 ◌>>◌
abbrev pub ◌>>◌ {κ} : {W : Type κ} → Result (Unit {0}) → Result W → Result W
err thrown >> next = err thrown
ok tt >> next = next

abbrev pub is_ok {ℓ} : {A : Type ℓ} → Result A → Bool
is_ok (ok a) = true
is_ok (err e) = false
