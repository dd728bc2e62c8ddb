-- ===== src/Web/Client/Laws.antt =====
-- The errors that lib/http.ts of the server sends, as api/client.ts of the browser reads them.
use circleftp_jellyfin.Base.{ℕ, ◌≤◌, ◌≡◌, refl, Option, none, some, true, false, arith, ◌==◌}
use circleftp_jellyfin.Base.Text.{Text}
use circleftp_jellyfin.Routes.Http.{Issue, Thrown, failure_of, Envelope, error_handler, envelope_of}
use circleftp_jellyfin.Web.Client.{
  ApiRequestError, ErrorPart, ApiResponse, responds, rejected, is_success, read_payload,
  read_response, api_fetch,
}

-- `a ?? b`
abbrev or_else {ℓ} : {A : Type ℓ} → Option A → Option A → Option A
or_else none b = b
or_else (some a) b = some a

-- The message of an issue, if there is one.
abbrev pub message_of : Option Issue → Option Text
message_of none = none
message_of (some i) = some i.message

-- The error that the browser has where a handler has thrown a value.
abbrev pub told : Thrown → ApiRequestError
told t = record {
  status = (failure_of t).status;
  code = (failure_of t).code;
  message = (failure_of t).message;
  details = (failure_of t).details;
}

abbrev pub whole_part : Envelope → ErrorPart
whole_part e = record { code = some e.code; message = some e.message; details = e.details }

-- What `JSON.stringify` writes of an envelope, `response.json` reads again.
abbrev pub Rereads : {J : Type 0} → (Envelope → J) → (J → Option ErrorPart) → Type 0
Rereads sent error_of = (e : Envelope) → error_of (sent e) ≡ some (whole_part e)

abbrev pub reply_with : {J : Type 0} → (Envelope → J) → ℕ × Envelope → ApiResponse J
reply_with sent (status, e) = record {
  status = status;
  is_json = true;
  body = some (some (sent e));
}

module _ {J : Type 0} (sent : Envelope → J) (error_of : J → Option ErrorPart)
    (r : Rereads sent error_of) where
  -- The browser throws what a handler has thrown, where its status is no success; of what is no
  -- `ApiError` it learns nothing.
  pub api_fetch-error_handler :
      (t : Thrown)
      → 300 ≤ (failure_of t).status
      → api_fetch error_of (responds (reply_with sent (error_handler t))) ≡ rejected (told t)
  unfolding api_fetch read_response read_payload error_handler
  api_fetch-error_handler t h =
      let n = (failure_of t).status in
      let some_content : (n == 204) ≡ false = ground arith in
      let no_success : is_success n ≡ false = ground arith in
      rw (some_content, no_success, r (envelope_of (failure_of t))) refl
