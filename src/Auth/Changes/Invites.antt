-- ===== src/Auth/Changes/Invites.antt =====
-- An invite is spent for good, whatever is done to the accounts afterwards.
use circleftp_jellyfin.Base.{
  ℕ, ◌≤◌, ◌≡◌, refl, sym, ap, subst, ◌∙◌, List, [], ◌∷◌, none, some, Bool, true, false, ◌&&◌, not,
  arith, any, count, All, ◌==◌, ==_refl, ==_iff, Bool-cases, Option-cases, inl, inr, is_some,
}
use circleftp_jellyfin.Base.Text.{Text, text_eq}
use circleftp_jellyfin.Base.Result.{ok, err, bad_request}
use circleftp_jellyfin.Auth.Model.{User, Invite, Accounts, remove_user, forget_in_invite}
use circleftp_jellyfin.Auth.Users.{
  Registration, redeem_invite, claim_invite, find_invite, is_unused, create_invite, create_user,
  set_password,
}
use circleftp_jellyfin.Auth.Users.Laws.{typed_code, redeem_invite_inv}
use circleftp_jellyfin.Auth.Admin.{update_user, delete_user, revoke_invite}
use circleftp_jellyfin.Auth.Reset.{
  create_password_reset, redeem_password_reset, prune_expired_resets,
}
use circleftp_jellyfin.Auth.Session.{
  issue_session, destroy_session, destroy_all_sessions, prune_expired_sessions,
}
use circleftp_jellyfin.Auth.Changes.Kept.{
  any-append, any-map, any-filter, kept, kept_with, update_user-rest, create_user-rest,
  delete_user_inv, revoke_invite_inv, create_reset-invites, redeem_reset-invites,
}
use circleftp_jellyfin.Auth.Changes.{
  Change, registers, invites, revokes_invite, creates_user, sets_password, updates_user,
  deletes_user, issues_reset, redeems_reset, prunes_resets, signs_in, signs_out,
  signs_out_everywhere, prunes_sessions, change, change_all,
}

abbrev pub is_used_by : ℕ → Invite → Bool
is_used_by id i = elim i.used_by_id [ none ↦ false | some k ↦ k == id ]

-- Whether a row has the code and is not used by the account.
abbrev pub is_left : Text → ℕ → Invite → Bool
is_left code id i = text_eq i.code code && not (is_used_by id i)

abbrev pub IsSpent : Text → ℕ → List Invite → Type 0
IsSpent code id is = any (is_left code id) is ≡ false

module _ (code : Text) (id : ℕ) where
  claimed-IsSpent :
      (key now : ℕ) (is : List Invite)
      → IsSpent code id is
      → ((other : ℕ) → IsSpent code id (claim_invite key other now is).0)
  unfolding claim_invite
  claimed-IsSpent key now is h other = any-map (is_left code id) _ (λ i k. ground (arith)) is h

  no_code : (is : List Invite) → count (λ i. text_eq i.code code) is ≡ 0 → IsSpent code id is
  no_code [] h = refl
  no_code (i ∷ is) h = ground (arith, no_code is)

  -- The claim of the only row with the code spends it.
  claim-IsSpent :
      (now : ℕ) (is : List Invite) (i : Invite)
      → find_invite code is ≡ some i
      → i.used_by_id ≡ none
      → count (λ j. text_eq j.code code) is ≤ 1
      → IsSpent code id (claim_invite i.id id now is).0
  unfolding claim_invite
  claim-IsSpent now [] i e n u = cc
  claim-IsSpent now (j ∷ is) i e n u = elim (Bool-cases (text_eq j.code code)) [
    | inl hit ↦
        let this : j ≡ i = ground arith in
        let unused : is_unused i.id j ≡ true =
          subst (λ x. is_unused i.id x ≡ true) (sym this) (ground (arith, ==_refl i.id)) in
        let rest = claimed-IsSpent i.id now is (no_code is (ground arith)) id in
        rw unused (ground (arith, rest, ==_refl id))
    | inr miss ↦
        let rest = claim-IsSpent now is i (rw miss at e) n (rw miss at u) in
        elim (Bool-cases (is_unused i.id j)) [
          | inl unused ↦ rw (unused, miss) rest
          | inr taken ↦ rw (taken, miss) rest
        ]
  ]

  found-used :
      (is : List Invite) (i : Invite)
      → find_invite code is ≡ some i
      → IsSpent code id is
      → is_some i.used_by_id ≡ true
  found-used [] i e h = cc
  found-used (j ∷ is) i e h = elim (Bool-cases (text_eq j.code code)) [
    | inl hit ↦
        let this : j ≡ i = ground arith in
        subst (λ x. is_some x.used_by_id ≡ true) this (ground arith)
    | inr miss ↦ found-used is i (rw miss at e) (ground arith)
  ]

  refused :
      (s : Registration) (other later : ℕ) (a : Accounts)
      → typed_code s ≡ code
      → IsSpent code id a.invites
      → redeem_invite s other later a ≡ err bad_request
  unfolding redeem_invite
  refused s other later a same h = elim (Option-cases (find_invite code a.invites)) [
    | inl e ↦ rw (same, e) refl
    | inr (i, e) ↦ rw (same, e, found-used a.invites i e h) refl
  ]

-- The changes that leave an invite spent: all but the deletion of the account that has used it; a new
-- invite has another code, which the table asks for.
abbrev pub KeepsInvite : Text → ℕ → Change → Type 0
KeepsInvite code id (invites o key other now) = text_eq other code ≡ false
KeepsInvite code id (deletes_user key current) = (key == id) ≡ false
KeepsInvite code id _ = Unit

forget-left :
    (code : Text) (id key : ℕ) (i : Invite)
    → (key == id) ≡ false
    → is_left code id i ≡ false
    → is_left code id (forget_in_invite key i) ≡ false
forget-left code id key i n h = elim (Option-cases i.used_by_id) [
  | inl e ↦ ground (arith, e)
  | inr (k, e) ↦ ground (arith, e, ==_iff k key, ==_iff k id, ==_iff key id)
]

module _ (hash_token : Text → Text) (code : Text) (id : ℕ) where
  abbrev Spent : Accounts → Type 0
  Spent a = IsSpent code id a.invites

  moved : (b : Accounts) (is : List Invite) → b.invites ≡ is → IsSpent code id is → Spent b
  moved b is e h = subst (IsSpent code id) (sym e) h

  change-IsSpent :
      (c : Change) (a : Accounts) → KeepsInvite code id c → Spent a → Spent (change hash_token c a)
  unfolding change create_invite set_password prune_expired_resets issue_session destroy_session
      destroy_all_sessions prune_expired_sessions remove_user
  change-IsSpent (registers r key now) a k h =
      kept_with Spent a h (redeem_invite r key now a) (λ b u e.
        let (i, found, n, live, free, this, users, claimed) = redeem_invite_inv r key now a b u e in
        moved b _ claimed (claimed-IsSpent code id i.id now a.invites h key))
  change-IsSpent (invites o key other now) a k h =
      any-append (is_left code id) a.invites _ ∙ rw (h, k) refl
  change-IsSpent (revokes_invite key) a k h = kept Spent a h (revoke_invite key a) (λ b e.
      moved b _ (ap (λ x. x.invites) (revoke_invite_inv key a b e))
        (any-filter (is_left code id) (λ i. not (i.id == key)) a.invites h))
  change-IsSpent (creates_user o key) a k h =
      kept_with Spent a h (create_user o key a)
        (λ b u e. moved b _ (create_user-rest o key a b u e).0 h)
  change-IsSpent (sets_password key hash) a k h = h
  change-IsSpent (updates_user key o current) a k h =
      kept Spent a h (update_user key o current a)
        (λ b e. moved b _ (update_user-rest key o current a b e).0 h)
  change-IsSpent (deletes_user key current) a k h =
      kept Spent a h (delete_user key current a) (λ b e.
        moved b _ (ap (λ x. x.invites) (delete_user_inv key current a b e)) (
          any-map (is_left code id) (forget_in_invite key) (λ i. forget-left code id key i k)
            a.invites h))
  change-IsSpent (issues_reset user_id by hours key token now) a k h =
      kept_with Spent a h (create_password_reset hash_token user_id by hours key token now a)
        (λ b r e.
          moved b _ (create_reset-invites hash_token user_id by hours key token now a b r e) h)
  change-IsSpent (redeems_reset token hash now) a k h =
      kept_with Spent a h (redeem_password_reset hash_token token hash now a)
        (λ b key e. moved b _ (redeem_reset-invites hash_token token hash now a b key e) h)
  change-IsSpent (prunes_resets now) a k h = h
  change-IsSpent (signs_in days key user_id token now) a k h = h
  change-IsSpent (signs_out none) a k h = h
  change-IsSpent (signs_out (some token)) a k h = h
  change-IsSpent (signs_out_everywhere key) a k h = h
  change-IsSpent (prunes_sessions now) a k h = h

  change_all-IsSpent :
      (cs : List Change) (a : Accounts)
      → All (KeepsInvite code id) cs
      → Spent a
      → Spent (change_all hash_token cs a)
  unfolding change_all
  change_all-IsSpent [] a k h = h
  change_all-IsSpent (c ∷ cs) a (p, k) h =
      change_all-IsSpent cs (change hash_token c a) k (change-IsSpent c a p h)

-- Where codes differ, a code that has made an account is refused from then on, whatever registrations,
-- changes of accounts, invites, resets and sessions follow, as long as the account is not deleted.
pub redeem_invite-refused :
    (hash_token : Text → Text) (r s : Registration) (id now other later : ℕ) (cs : List Change)
    (a a' : Accounts) (u : User)
    → count (λ i. text_eq i.code (typed_code r)) a.invites ≤ 1
    → redeem_invite r id now a ≡ ok (a', u)
    → All (KeepsInvite (typed_code r) id) cs
    → typed_code s ≡ typed_code r
    → redeem_invite s other later (change_all hash_token cs a') ≡ err bad_request
redeem_invite-refused hash_token r s id now other later cs a a' u unique accepted k same =
    let (i, e, n, live, free, this, users, claimed) = redeem_invite_inv r id now a a' u accepted in
    let spent = claim-IsSpent (typed_code r) id now a.invites i e n unique in
    refused (typed_code r) id s other later (change_all hash_token cs a') same (
      change_all-IsSpent hash_token (typed_code r) id cs a' k
        (subst (IsSpent (typed_code r) id) (sym claimed) spent))
