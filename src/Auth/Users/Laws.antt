-- ===== src/Auth/Users/Laws.antt =====
-- An invite of auth/users.ts makes one account.
use circleftp_jellyfin.Base.{
  ℕ, ◌<◌, ◌≡◌, refl, sym, ap, subst, List, [], ◌∷◌, ◌++◌, none, some, true, false, not, arith, map,
  count, filter, ◌==◌, ==_refl, leb, Bool-cases, Option-cases, inl, inr,
}
use circleftp_jellyfin.Base.Text.{Text, text_eq, trim, to_upper_char}
use circleftp_jellyfin.Base.Result.{ok, err, bad_request}
use circleftp_jellyfin.Auth.Model.{
  User, Invite, Accounts, find_email, forget_in_invite, remove_user,
}
use circleftp_jellyfin.Auth.Users.{
  normal_email, new_user, find_invite, is_unused, claim_invite, Registration, redeem_invite,
}

abbrev pub typed_code : Registration → Text
typed_code r = map to_upper_char (trim r.code)

-- What a registration that is accepted has found and done.
pub redeem_invite_inv :
    (r : Registration) (id now : ℕ) (a a' : Accounts) (u : User)
    → redeem_invite r id now a ≡ ok (a', u)
    → (i : Invite) × (find_invite (typed_code r) a.invites ≡ some i)
      × (i.used_by_id ≡ none)
      × (leb i.expires_at now ≡ false)
      × (find_email (normal_email r.email) a.users ≡ none)
      × (u ≡ new_user id (normal_email r.email) (trim r.name) r.password_hash i.role)
      × (a'.users ≡ a.users ++ u ∷ [])
      × (a'.invites ≡ (claim_invite i.id id now a.invites).0)
unfolding redeem_invite
redeem_invite_inv r id now a a' u h = elim (Option-cases (find_invite (typed_code r) a.invites)) [
  | inl e ↦ ground arith
  | inr (i, e) ↦
      (i, e, ground arith, ground arith, ground arith, ground arith, ground arith, ground arith)
]

abbrev mark_used : ℕ → ℕ → Invite → Invite
mark_used id now i = record i { used_by_id = some id; used_at = some now }

-- The invite that was found is claimed.
claim-find :
    (code : Text) (id now : ℕ) (is : List Invite) (i : Invite)
    → find_invite code is ≡ some i
    → i.used_by_id ≡ none
    → find_invite code (claim_invite i.id id now is).0 ≡ some (mark_used id now i)
unfolding claim_invite
claim-find code id now [] i e n = cc
claim-find code id now (j ∷ is) i e n = elim (Bool-cases (text_eq j.code code)) [
  | inl hit ↦
      let this : j ≡ i = ground arith in
      let unused : is_unused i.id j ≡ true =
        subst (λ x. is_unused i.id x ≡ true) (sym this) (ground (arith, ==_refl i.id)) in
      rw (unused, hit) (ap (λ x. some (mark_used id now x)) this)
  | inr miss ↦ elim (Bool-cases (is_unused i.id j)) [
    | inl unused ↦ rw (unused, miss) (claim-find code id now is i (ground arith) n)
    | inr taken ↦ rw (taken, miss) (claim-find code id now is i (ground arith) n)
  ]
]

-- A code that has made an account makes no other one: the next registration with it is refused.
pub redeem_invite-redeem_invite :
    (r s : Registration) (id now other later : ℕ) (a a' : Accounts) (u : User)
    → redeem_invite r id now a ≡ ok (a', u)
    → s.code ≡ r.code
    → redeem_invite s other later a' ≡ err bad_request
unfolding redeem_invite
redeem_invite-redeem_invite r s id now other later a a' u h same =
    let (i, e, n, live, free, this, users, invites) = redeem_invite_inv r id now a a' u h in
    let found = claim-find (typed_code r) id now a.invites i e n in rw (same, invites, found)

forget-find :
    (code : Text) (id : ℕ) (is : List Invite) (i : Invite)
    → find_invite code is ≡ some i
    → find_invite code (map (forget_in_invite id) is) ≡ some (forget_in_invite id i)
forget-find code id [] i e = cc
forget-find code id (j ∷ is) i e = elim (Bool-cases (text_eq j.code code)) [
  | inl hit ↦
      let this : j ≡ i = ground arith in rw hit (ap (λ x. some (forget_in_invite id x)) this)
  | inr miss ↦ rw miss (forget-find code id is i (ground arith))
]

pub found-unused :
    (code : Text) (is : List Invite) (i : Invite)
    → find_invite code is ≡ some i
    → i.used_by_id ≡ none
    → 0 < count (is_unused i.id) is
found-unused code [] i e n = cc
found-unused code (j ∷ is) i e n = elim (Bool-cases (text_eq j.code code)) [
  | inl hit ↦
      let this : j ≡ i = ground arith in
      let unused : is_unused i.id j ≡ true =
        subst (λ x. is_unused i.id x ≡ true) (sym this) (ground (arith, ==_refl i.id)) in
      ground arith
  | inr miss ↦ ground (arith, found-unused code is i)
]

removed-email :
    (email : Text) (id : ℕ) (us : List User) (u : User)
    → find_email email us ≡ none
    → (u.id == id) ≡ true
    → find_email email (filter (λ x. not (x.id == id)) (us ++ u ∷ [])) ≡ none
removed-email email id [] u e h = rw h refl
removed-email email id (v ∷ us) u e h = ground (arith, removed-email email id us u)

redeem_invite_accepts :
    (r : Registration) (id now : ℕ) (a : Accounts) (i : Invite)
    → find_invite (typed_code r) a.invites ≡ some i
    → i.used_by_id ≡ none
    → leb i.expires_at now ≡ false
    → find_email (normal_email r.email) a.users ≡ none
    → (b : Accounts) × (redeem_invite r id now a
        ≡ ok (b, new_user id (normal_email r.email) (trim r.name) r.password_hash i.role))
unfolding redeem_invite claim_invite
redeem_invite_accepts r id now a i e n live free =
    let some_claimed : (count (is_unused i.id) a.invites == 0) ≡ false =
      ground (arith, found-unused (typed_code r) a.invites i e n) in
    let u = new_user id (normal_email r.email) (trim r.name) r.password_hash i.role in
    let b : Accounts = record a {
      users = a.users ++ u ∷ [];
      invites = (claim_invite i.id id now a.invites).0;
    } in
    (b, rw (e, n, live, free, some_claimed) refl)

-- The deletion of the account that an invite has made opens the invite again: the same registration
-- is accepted a second time as long as the clock has not moved on, with the role of that account.
pub redeem_invite-remove_user :
    (r : Registration) (id again now : ℕ) (a a' : Accounts) (u : User)
    → redeem_invite r id now a ≡ ok (a', u)
    → (b : Accounts) × (redeem_invite r again now (remove_user id a')
        ≡ ok (b, new_user again (normal_email r.email) (trim r.name) r.password_hash u.role))
unfolding remove_user
redeem_invite-remove_user r id again now a a' u h =
    let (i, e, n, live, free, this, users, invites) = redeem_invite_inv r id now a a' u h in
    let found = claim-find (typed_code r) id now a.invites i e n in
    let open_again =
      forget-find (typed_code r) id (claim_invite i.id id now a.invites).0 (mark_used id now i)
        found in
    let gone = removed-email (normal_email r.email) id a.users u free (rw this (==_refl id)) in
    let (b, accepted) =
      redeem_invite_accepts r again now (remove_user id a')
        (forget_in_invite id (mark_used id now i)) (rw invites open_again) (rw (==_refl id) refl)
        live (rw users gone) in
    (b, rw this accepted)
