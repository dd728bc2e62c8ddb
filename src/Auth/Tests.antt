-- ===== src/Auth/Tests.antt =====
-- The theorems on packages/server/src/auth at concrete inputs: two administrators, an invite and a
-- password reset. A token stands for its own hash.
use circleftp_jellyfin.Base.{
  true, ◌<◌, ◌≡◌, ◌⊎◌, List, refl, [], ◌∷◌, none, some, false, All, arith, ◌==◌, ◌+◌, ◌*◌, leb,
  if◌then◌else◌,
}
use circleftp_jellyfin.Base.Text.{Text, codes, trim, is_space}
use circleftp_jellyfin.Base.Result.{Result, ok, err, bad_request}
use circleftp_jellyfin.Auth.Model.{is_admin, admin, User, Accounts, remove_user}
use circleftp_jellyfin.Auth.Users.{
  Registration, redeem_invite, new_user, normal_email, claim_invite,
}
use circleftp_jellyfin.Auth.Users.Laws.{redeem_invite-redeem_invite, redeem_invite-remove_user}
use circleftp_jellyfin.Auth.Admin.{
  update_user, delete_user, check_update, apply_update, is_last_admin, active_admin_count,
}
use circleftp_jellyfin.Auth.Admin.Lockout.{admins, update_user-admins, delete_user-admins}
use circleftp_jellyfin.Auth.Admin.Race.{demotion, check_update-race}
use circleftp_jellyfin.Auth.Session.{issue_session, resolve_session}
use circleftp_jellyfin.Auth.Session.Laws.{
  LiveAs, issue_session-resolve_session, resolve_session-LiveAs,
}
use circleftp_jellyfin.Auth.Middleware.{Request, attach_user, require_admin}
use circleftp_jellyfin.Auth.Middleware.Laws.{require_admin-LiveAs}
use circleftp_jellyfin.Auth.Reset.{
  redeem_password_reset, inspect_password_reset, used, unknown, claim_reset,
}
use circleftp_jellyfin.Auth.Changes.{
  Change, invites, deletes_user, issues_reset, prunes_resets, signs_in, change_all,
}
use circleftp_jellyfin.Auth.Changes.Invites.{redeem_invite-refused}
use circleftp_jellyfin.Auth.Changes.Resets.{redeem_password_reset-refused}
use circleftp_jellyfin.Auth.Reset.Laws.{redeem_password_reset-once}

abbrev first : User
first = record {
  id = 1;
  email = codes "a@x";
  name = codes "a";
  password_hash = codes "p";
  role = admin;
  disabled = false;
}

abbrev second : User
second = record first { id = 2; email = codes "b@x" }

abbrev accounts : Accounts
accounts = record {
  users = first ∷ second ∷ [];
  sessions = record { id = 1; token_hash = codes "s"; user_id = 2; expires_at = 100 } ∷ [];
  invites =
      record {
        id = 5;
        code = codes "ABC";
        role = admin;
        note = none;
        expires_at = 100;
        created_by_id = some 1;
        used_by_id = none;
        used_at = none;
      }
      ∷ [];
  resets =
      record {
        id = 8;
        token_hash = codes "t";
        user_id = 2;
        issued_by_id = some 1;
        expires_at = 100;
        used_at = none;
      }
      ∷ [];
}

abbrev accepted : Result Accounts → Accounts
accepted (ok a) = a
accepted (err e) = accounts

abbrev accepted_with {ℓ} : {B : Type ℓ} → Result (Accounts × B) → Accounts
accepted_with (ok (a, b)) = a
accepted_with (err e) = accounts

abbrev demoted : Accounts
demoted = accepted (update_user 2 demotion 1 accounts)

demotion_leaves_admin : 0 < admins demoted.users
unfolding update_user check_update is_last_admin active_admin_count
demotion_leaves_admin =
    update_user-admins 2 demotion 1 accounts demoted (refl, (refl, tt)) (omega arith) refl

abbrev removed : Accounts
removed = accepted (delete_user 2 1 accounts)

deletion_leaves_admin : 0 < admins removed.users
unfolding delete_user is_last_admin active_admin_count
deletion_leaves_admin =
    delete_user-admins 2 1 accounts removed (refl, (refl, tt)) (omega arith) refl

check_update-race_example :
    (check_update 1 demotion 2 accounts ≡ ok tt)
    × (check_update 2 demotion 1 accounts ≡ ok tt)
    × (admins (apply_update 2 demotion (apply_update 1 demotion accounts)).users ≡ 0)
check_update-race_example =
    check_update-race first second 1 2 2 1 accounts (refl, (refl, tt)) refl refl refl refl refl refl

abbrev registration : Registration
registration = record {
  code = codes " abc ";
  name = codes "New";
  email = codes "N@x";
  password_hash = codes "q";
}

abbrev registered : Accounts
registered = accepted_with (redeem_invite registration 3 50 accounts)

abbrev new : User
new = new_user 3 (codes "n@x") (codes "New") (codes "q") admin

second_registration : redeem_invite registration 4 60 registered ≡ err bad_request
unfolding redeem_invite is_space claim_invite
second_registration =
    redeem_invite-redeem_invite registration registration 3 50 4 60 accounts registered new refl
      refl

redeem_invite-remove_user_example :
    (b : Accounts) × (redeem_invite registration 4 50 (remove_user 3 registered)
      ≡ ok (
        b,
        new_user 4 (normal_email registration.email) (trim registration.name) (codes "q") admin,
      ))
unfolding redeem_invite is_space claim_invite
redeem_invite-remove_user_example =
    redeem_invite-remove_user registration 3 4 50 accounts registered new refl

abbrev reset : Accounts
reset = accepted_with (redeem_password_reset (λ t. t) (codes "t") (codes "new") 50 accounts)

second_reset :
    (redeem_password_reset (λ t. t) (codes "t") (codes "other") 60 reset ≡ err bad_request)
    × (inspect_password_reset (λ t. t) (codes "t") 60 reset ≡ used)
    × All (λ s. (s.user_id == 2) ≡ false) reset.sessions
unfolding redeem_password_reset claim_reset
second_reset =
    redeem_password_reset-once (λ t. t) (codes "t") (codes "new") (codes "other") 50 60 accounts
      reset 2 refl

-- Other invites, resets and sessions follow, and the deletion of another account.
abbrev later_changes : List Change
later_changes =
    invites (record { role = none; expires_in_days = none; note = none; created_by_id = none }) 6
      (codes "DEF") 51
    ∷ deletes_user 2 1
    ∷ issues_reset 1 none 24 9 (codes "u") 52
    ∷ prunes_resets 53
    ∷ signs_in 1 9 1 (codes "tok") 54
    ∷ []

redeem_invite-refused_example :
    redeem_invite registration 4 60 (change_all (λ t. t) later_changes registered) ≡ err bad_request
unfolding redeem_invite is_space claim_invite
redeem_invite-refused_example =
    redeem_invite-refused (λ t. t) registration registration 3 50 4 60 later_changes accounts
      registered new (omega arith) refl (refl, (refl, (tt, (tt, (tt, tt))))) refl

redeem_password_reset-refused_example :
    All (λ s. (s.user_id == 2) ≡ false) reset.sessions
    × (redeem_password_reset
          (λ t. t)
          (codes "t")
          (codes "other")
          60
          (change_all (λ t. t) later_changes reset)
        ≡ err bad_request)
    × ((inspect_password_reset (λ t. t) (codes "t") 60 (change_all (λ t. t) later_changes reset)
          ≡ used)
        ⊎ (inspect_password_reset (λ t. t) (codes "t") 60 (change_all (λ t. t) later_changes reset)
            ≡ unknown))
unfolding redeem_password_reset claim_reset
redeem_password_reset-refused_example =
    redeem_password_reset-refused (λ t. t) (codes "t") (codes "new") (codes "other") 50 60 2
      later_changes accounts reset (omega arith) refl (tt, (tt, (refl, (tt, (tt, tt)))))

abbrev signed_in : Accounts
signed_in = (issue_session (λ t. t) 1 9 2 (codes "tok") 50 accounts).0

issued_token : (resolve_session (λ t. t) (some (codes "tok")) 60 signed_in).0 ≡ (
    if leb (50 + 1 * 24 * 60 * 60 * 1000) 60
    then none
    else some (record { id = 2; email = codes "b@x"; name = codes "a"; role = admin }))
issued_token =
    issue_session-resolve_session (λ t. t) 1 9 2 (codes "tok") 50 60 accounts second refl refl refl

LiveAs-signed_in :
    LiveAs
      (λ t. t)
      (codes "s")
      60
      accounts
      (record { id = 2; email = codes "b@x"; name = codes "a"; role = admin })
unfolding resolve_session
LiveAs-signed_in =
    resolve_session-LiveAs (λ t. t) (codes "s") 60 accounts
      (record { id = 2; email = codes "b@x"; name = codes "a"; role = admin }) refl

abbrev request : Request
request = record { cookie = some (codes "s"); method = codes "POST"; requested_with = [] }

require_admin-LiveAs_example :
    (token : Text) × (request.cookie ≡ some token)
    × LiveAs
        (λ t. t)
        token
        60
        accounts
        (record { id = 2; email = codes "b@x"; name = codes "a"; role = admin })
    × (is_admin admin ≡ true)
unfolding resolve_session attach_user require_admin
require_admin-LiveAs_example =
    require_admin-LiveAs (λ t. t) request 60 accounts
      (record { id = 2; email = codes "b@x"; name = codes "a"; role = admin }) refl
