-- ===== src/Web/Client/Tests.antt =====
-- The errors of a registration whose password is too short and whose name is missing, with envelopes as
-- the values of JSON.
use circleftp_jellyfin.Base.{◌≡◌, refl, [], ◌∷◌, none, some, false}
use circleftp_jellyfin.Base.Text.{codes}
use circleftp_jellyfin.Circleftp.Plan.{decimal, digits_from}
use circleftp_jellyfin.Routes.Http.{
  Issue, name, index, key_of, join_dots, Envelope, not_found_handler,
}
use circleftp_jellyfin.Web.Client.{responds, rejected, read_response, read_payload, api_fetch}
use circleftp_jellyfin.Web.Client.Laws.{whole_part, reply_with}

abbrev sent : Envelope → Envelope
sent e = e

abbrev short : Issue
short = record { path = name (codes "password") ∷ []; message = codes "At least 10 characters" }

abbrev weak : Issue
weak = record { path = name (codes "password") ∷ []; message = codes "Needs a digit" }

abbrev nested : Issue
nested = record { path = name (codes "seasons") ∷ index 2 ∷ []; message = codes "Too long" }

nested_key : key_of nested ≡ codes "seasons.2"
unfolding key_of join_dots decimal digits_from
nested_key = refl

empty_key : key_of (record { path = []; message = codes "Required" }) ≡ codes "_"
unfolding key_of join_dots
empty_key = refl

unknown_path :
    api_fetch (λ (e : Envelope). some (whole_part e)) (responds (reply_with sent not_found_handler))
    ≡ rejected (record {
      status = 404;
      code = codes "not_found";
      message = codes "No such endpoint";
      details = none;
    })
unfolding api_fetch read_response read_payload not_found_handler
unknown_path = refl

broken_proxy :
    api_fetch
      (λ (e : Envelope). some (whole_part e))
      (responds (record { status = 502; is_json = false; body = none }))
    ≡ rejected (record {
      status = 502;
      code = codes "unknown_error";
      message = codes "Request failed with status 502";
      details = none;
    })
unfolding api_fetch read_response read_payload decimal digits_from
broken_proxy = refl
