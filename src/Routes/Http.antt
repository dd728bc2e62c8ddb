-- ===== src/Routes/Http.antt =====
-- packages/server/src/lib/http.ts: the issues that zod finds in a request, by field, and the reply to
-- whatever a handler throws. Zod is an argument: the value that it accepts or its issues. The log is
-- left out.
use circleftp_jellyfin.Base.{ℕ, List, [], ◌∷◌, ◌++◌, Option, none, some, if◌then◌else◌}
use circleftp_jellyfin.Base.Text.{Text, text_eq, codes}
use circleftp_jellyfin.Circleftp.Text.{or_text}
use circleftp_jellyfin.Circleftp.Plan.{decimal}

pub data PathStep : Type 0 where
  name : Text → PathStep
  index : ℕ → PathStep

pub record Issue : Type 0 where
  pub path : List PathStep
  pub message : Text

abbrev pub step_text : PathStep → Text
step_text (name s) = s
step_text (index n) = decimal n

-- `path.join('.')`
unfoldable pub join_dots : List PathStep → Text
join_dots [] = []
join_dots (s ∷ []) = step_text s
join_dots (s ∷ t ∷ rest) = step_text s ++ (codes "." ++ join_dots (t ∷ rest))

unfoldable pub key_of : Issue → Text
key_of i = or_text (join_dots i.path) (codes "_")

-- `Record<string, string[]>`; no path of a schema is the name of a property that every object has.
abbrev pub Details : Type 0
Details = List (Text × List Text)

-- `(out[key] ??= []).push(message)`
unfoldable pub push : Text → Text → Details → Details
push key message [] = (key, message ∷ []) ∷ []
push key message ((k, ms) ∷ rest) =
    if text_eq k key then (k, ms ++ message ∷ []) ∷ rest else (k, ms) ∷ push key message rest

unfoldable pub flatten_from : List Issue → Details → Details
flatten_from [] out = out
flatten_from (i ∷ rest) out = flatten_from rest (push (key_of i) i.message out)

unfoldable pub flatten_issues : List Issue → Details
flatten_issues issues = flatten_from issues []

-- An `ApiError` with its texts.
pub record ApiFailure : Type 0 where
  pub status : ℕ
  pub code : Text
  pub message : Text
  pub details : Option Details

abbrev pub internal_failure : ApiFailure
internal_failure = record {
  status = 500;
  code = codes "internal_error";
  message = codes "Something went wrong";
  details = none;
}

abbrev pub invalid_request : Text → List Issue → ApiFailure
invalid_request message issues = record {
  status = 400;
  code = codes "bad_request";
  message = message;
  details = some (flatten_issues issues);
}

-- `schema.safeParse`, and what `parseBody` and `parseQuery` make of it.
pub data SafeParse {ℓ} (A : Type ℓ) : Type ℓ where
  success : A → SafeParse A
  failure : List Issue → SafeParse A

pub data Parsed {ℓ} (A : Type ℓ) : Type ℓ where
  gives : A → Parsed A
  throws : ApiFailure → Parsed A

unfoldable pub parse_body {ℓ} : {A : Type ℓ} → SafeParse A → Parsed A
parse_body (success a) = gives a
parse_body (failure issues) = throws (invalid_request (codes "Check the highlighted fields") issues)

unfoldable pub parse_query {ℓ} : {A : Type ℓ} → SafeParse A → Parsed A
parse_query (success a) = gives a
parse_query (failure issues) = throws (invalid_request (codes "Invalid request") issues)

-- What a handler throws: an `ApiError`, or any other value, with the text that it carries.
pub data Thrown : Type 0 where
  api_error : ApiFailure → Thrown
  unexpected : Text → Thrown

-- The status and the envelope that `errorHandler` and `notFoundHandler` send.
pub record Envelope : Type 0 where
  pub code : Text
  pub message : Text
  pub details : Option Details

abbrev pub envelope_of : ApiFailure → Envelope
envelope_of e = record { code = e.code; message = e.message; details = e.details }

abbrev pub failure_of : Thrown → ApiFailure
failure_of (api_error e) = e
failure_of (unexpected text) = internal_failure

unfoldable pub error_handler : Thrown → ℕ × Envelope
error_handler t = ((failure_of t).status, envelope_of (failure_of t))

unfoldable pub not_found_handler : ℕ × Envelope
not_found_handler =
    (404, record { code = codes "not_found"; message = codes "No such endpoint"; details = none })
