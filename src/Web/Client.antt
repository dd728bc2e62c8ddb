-- ===== src/Web/Client.antt =====
-- packages/web/src/api/client.ts: `apiFetch` and its errors. `fetch` and the JSON that it reads are
-- arguments; `error_of` reads the property `error` of a value.
pub mod Laws
mod Tests
use circleftp_jellyfin.Base.{
  ℕ, List, [], ◌∷◌, ◌++◌, Option, none, some, Bool, ◌&&◌, if◌then◌else◌, ◌==◌, leb, get_or_else,
}
use circleftp_jellyfin.Base.Text.{Text, text_eq, codes}
use circleftp_jellyfin.Circleftp.Plan.{decimal}
use circleftp_jellyfin.Routes.Http.{Details}

pub record ApiRequestError : Type 0 where
  pub status : ℕ
  pub code : Text
  pub message : Text
  pub details : Option Details

unfoldable pub is_unauthenticated : ApiRequestError → Bool
is_unauthenticated e = e.status == 401

-- `messages[0]`
abbrev pub first_of {ℓ} : {A : Type ℓ} → List A → Option A
first_of [] = none
first_of (x ∷ xs) = some x

abbrev pub first_message : Text → Details → Option Text
first_message field [] = none
first_message field ((key, messages) ∷ rest) =
    if text_eq key field then first_of messages else first_message field rest

unfoldable pub field_error : Text → ApiRequestError → Option Text
field_error field e = elim e.details [ none ↦ none | some d ↦ first_message field d ]

-- The property `error` of a value, as far as it has it.
pub record ErrorPart : Type 0 where
  pub code : Option Text
  pub message : Option Text
  pub details : Option Details

pub record ApiResponse (J : Type 0) : Type 0 where
  pub status : ℕ
  -- Whether the content type includes `application/json`.
  pub is_json : Bool
  -- The value of the body, where it is JSON; `some none` is `null`.
  pub body : Option (Option J)

-- How the call of `fetch` ends.
pub data Exchange (J : Type 0) : Type 0 where
  aborts fails : Exchange J
  responds : ApiResponse J → Exchange J

pub data ApiResult (J : Type 0) : Type 0 where
  -- `undefined`, and the payload.
  no_content : ApiResult J
  returned : Option J → ApiResult J
  -- What is thrown: an `ApiRequestError`, the abort, or the error of a body that is no JSON.
  rejected : ApiRequestError → ApiResult J
  aborted malformed : ApiResult J

abbrev pub unreachable_error : ApiRequestError
unreachable_error = record {
  status = 0;
  code = codes "network_error";
  message = codes "Could not reach the server. Is it running?";
  details = none;
}

-- `response.ok`
abbrev pub is_success : ℕ → Bool
is_success status = leb 200 status && leb status 299

abbrev pub request_error : ℕ → Option ErrorPart → ApiRequestError
request_error status none = record {
  status = status;
  code = codes "unknown_error";
  message = codes "Request failed with status " ++ decimal status;
  details = none;
}
request_error status (some e) = record {
  status = status;
  code = get_or_else e.code (codes "unknown_error");
  message = get_or_else e.message (codes "Request failed with status " ++ decimal status);
  details = e.details;
}

-- `envelope?.error`
abbrev pub error_part : {J : Type 0} → (J → Option ErrorPart) → Option J → Option ErrorPart
error_part error_of none = none
error_part error_of (some v) = error_of v

unfoldable pub read_payload :
    {J : Type 0} → (J → Option ErrorPart) → ℕ → Option (Option J) → ApiResult J
read_payload error_of status none = malformed
read_payload error_of status (some v) =
    if is_success status
    then returned v
    else rejected (request_error status (error_part error_of v))

unfoldable pub read_response : {J : Type 0} → (J → Option ErrorPart) → ApiResponse J → ApiResult J
read_response error_of r =
    if r.status == 204
    then no_content
    else read_payload error_of r.status (if r.is_json then r.body else some none)

unfoldable pub api_fetch : {J : Type 0} → (J → Option ErrorPart) → Exchange J → ApiResult J
api_fetch error_of aborts = aborted
api_fetch error_of fails = rejected unreachable_error
api_fetch error_of (responds r) = read_response error_of r
