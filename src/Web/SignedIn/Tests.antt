-- ===== src/Web/SignedIn/Tests.antt =====
-- Signing in and out in the browser with one account.
use circleftp_jellyfin.Base.{◌≡◌, refl, [], ◌∷◌, none, some, false}
use circleftp_jellyfin.Base.Text.{codes, text_eq}
use circleftp_jellyfin.Base.Result.{ok}
use circleftp_jellyfin.Auth.Model.{user, User, Accounts}
use circleftp_jellyfin.Auth.Session.{resolve_session}
use circleftp_jellyfin.Routes.Accounts.{NewSession, login}
use circleftp_jellyfin.Web.SignedIn.{
  Browser, answered, unreached, to_user_dto, load_user, log_in, log_out,
}
use circleftp_jellyfin.Web.SignedIn.Laws.{log_in-log_out}

abbrev owner : User
owner = record {
  id = 2;
  email = codes "b@x";
  name = codes "b";
  password_hash = codes "p";
  role = user;
  disabled = false;
}

abbrev accounts : Accounts
accounts = record { users = owner ∷ []; sessions = []; invites = []; resets = [] }

abbrev browser : Browser
browser = record { user = none; loading = false; cookie = none }

abbrev new : NewSession
new = record { id = 3; token = codes "t" }

abbrev after : Accounts
after = record accounts {
  sessions = record { id = 3; token_hash = codes "t"; user_id = 2; expires_at = 2592000050 } ∷ [];
}

accepted :
    login (λ t. t) 30 text_eq (λ t. t) (codes "b@x") (codes "p") new 50 accounts ≡ ok (after, owner)
unfolding login
accepted = refl

log_in-log_out_example :
    ((log_in
        (λ t. t)
        30
        text_eq
        (λ t. t)
        (codes "b@x")
        (codes "p")
        new
        50
        (browser, accounts)).0.user
      ≡ some (to_user_dto owner))
    × ((log_out
          (λ t. t)
          30
          text_eq
          (λ t. t)
          unreached
          60
          (log_in
            (λ t. t)
            30
            text_eq
            (λ t. t)
            (codes "b@x")
            (codes "p")
            new
            50
            (browser, accounts))).0.user
        ≡ none)
    × ((load_user
          (λ t. t)
          30
          text_eq
          (λ t. t)
          answered
          70
          (log_out
            (λ t. t)
            30
            text_eq
            (λ t. t)
            unreached
            60
            (log_in
              (λ t. t)
              30
              text_eq
              (λ t. t)
              (codes "b@x")
              (codes "p")
              new
              50
              (browser, accounts)))).0.user
        ≡ some (to_user_dto owner))
unfolding resolve_session
log_in-log_out_example =
    log_in-log_out (λ t. t) 30 text_eq (λ t. t) (codes "b@x") (codes "p") new 50 60 70 unreached
      browser accounts after owner refl accepted refl refl
