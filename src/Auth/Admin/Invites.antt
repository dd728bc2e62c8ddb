-- ===== src/Auth/Admin/Invites.antt =====
-- The list of invites in auth/admin.ts against what redeemInvite in auth/users.ts accepts.
use circleftp_jellyfin.Base.{ℕ, ◌≡◌, none, some, Bool, true, false, arith, Option-cases, inl, inr}
use circleftp_jellyfin.Base.Result.{is_ok}
use circleftp_jellyfin.Auth.Model.{Invite, Accounts, find_email}
use circleftp_jellyfin.Auth.Users.{
  normal_email, find_invite, claim_invite, Registration, redeem_invite,
}
use circleftp_jellyfin.Auth.Users.Laws.{typed_code, found-unused}
use circleftp_jellyfin.Auth.Admin.Listing.{InviteStatus, pending, invite_status}

abbrev pub is_pending : InviteStatus → Bool
is_pending pending = true
is_pending _ = false

-- An invite is listed as pending exactly if a registration with its code, with an email that no
-- account has, is accepted at that time.
pub invite_status-redeem_invite :
    (r : Registration) (id now : ℕ) (a : Accounts) (i : Invite)
    → find_invite (typed_code r) a.invites ≡ some i
    → find_email (normal_email r.email) a.users ≡ none
    → is_ok (redeem_invite r id now a) ≡ is_pending (invite_status now i)
unfolding redeem_invite invite_status claim_invite
invite_status-redeem_invite r id now a i found free = elim (Option-cases i.used_by_id) [
  | inl n ↦ ground (arith, found, free, found-unused (typed_code r) a.invites i found n)
  | inr (k, e) ↦ ground (arith, found, free, e)
]
