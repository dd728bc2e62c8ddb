-- ===== src/Auth/Changes/Resets.antt =====
-- A reset link is spent for good, whatever is done to the accounts afterwards.
use circleftp_jellyfin.Base.{
  ℕ, ◌≤◌, ◌≡◌, refl, sym, ap, subst, ◌∙◌, ◌⊎◌, List, [], ◌∷◌, none, some, Bool, true, false, ◌&&◌,
  not, arith, any, filter, count, All, ◌==◌, ==_refl, Bool-cases, Option-cases, inl, inr, is_none,
  is_some,
}
use circleftp_jellyfin.Base.Text.{Text, text_eq}
use circleftp_jellyfin.Base.Result.{ok, err, bad_request}
use circleftp_jellyfin.Auth.Model.{PasswordReset, Accounts, remove_user, forget_in_reset}
use circleftp_jellyfin.Auth.Users.{redeem_invite, create_invite, create_user, set_password}
use circleftp_jellyfin.Auth.Admin.{update_user, delete_user, revoke_invite}
use circleftp_jellyfin.Auth.Reset.{
  create_password_reset, redeem_password_reset, prune_expired_resets,
}
use circleftp_jellyfin.Auth.Session.{
  issue_session, destroy_session, destroy_all_sessions, prune_expired_sessions,
}
use circleftp_jellyfin.Auth.Changes.Kept.{
  any-append, any-map, any-filter, kept, kept_with, update_user-rest, create_user-rest,
  delete_user_inv, revoke_invite_inv,
}
use circleftp_jellyfin.Auth.Changes.{
  Change, registers, invites, revokes_invite, creates_user, sets_password, updates_user,
  deletes_user, issues_reset, redeems_reset, prunes_resets, signs_in, signs_out,
  signs_out_everywhere, prunes_sessions, change, change_all,
}
use circleftp_jellyfin.Auth.Changes.Kept.{redeem_invite-resets, create_reset_inv}
use circleftp_jellyfin.Auth.Reset.{
  is_open_reset, claim_reset, find_reset, inspect_password_reset, used, unknown,
}
use circleftp_jellyfin.Auth.Reset.Laws.{redeem_inv, redeem_password_reset-once}

-- The changes that leave a link spent: a new link has another hash, which the table asks for.
module _ (hash_token : Text → Text) (token : Text) where
  abbrev has_hash : PasswordReset → Bool
  has_hash r = text_eq r.token_hash (hash_token token)

  -- Whether a row has the hash and is not used.
  abbrev pub is_fresh : PasswordReset → Bool
  is_fresh r = text_eq r.token_hash (hash_token token) && is_none r.used_at

  abbrev pub IsClosed : List PasswordReset → Type 0
  IsClosed rs = any is_fresh rs ≡ false

  abbrev pub KeepsReset : Change → Type 0
  KeepsReset (issues_reset user_id by hours id other now) =
      text_eq (hash_token other) (hash_token token) ≡ false
  KeepsReset _ = Unit

  claimed-IsClosed :
      (key now : ℕ) (rs : List PasswordReset) → IsClosed rs → IsClosed (claim_reset key now rs).0
  unfolding claim_reset
  claimed-IsClosed key now rs h = any-map is_fresh _ (λ r k. ground arith) rs h

  no_hash : (rs : List PasswordReset) → count has_hash rs ≡ 0 → IsClosed rs
  no_hash [] h = refl
  no_hash (r ∷ rs) h = ground (arith, no_hash rs)

  -- The claim of the only row with the hash closes it.
  claim-IsClosed :
      (now : ℕ) (rs : List PasswordReset) (r : PasswordReset)
      → find_reset hash_token token rs ≡ some r
      → r.used_at ≡ none
      → count has_hash rs ≤ 1
      → IsClosed (claim_reset r.id now rs).0
  unfolding claim_reset
  claim-IsClosed now [] r e n u = cc
  claim-IsClosed now (x ∷ rs) r e n u = elim (Bool-cases (has_hash x)) [
    | inl hit ↦
        let this : x ≡ r = ground arith in
        let open_row : is_open_reset r.id x ≡ true =
          subst (λ y. is_open_reset r.id y ≡ true) (sym this) (ground (arith, ==_refl r.id)) in
        let rest = claimed-IsClosed r.id now rs (no_hash rs (ground arith)) in
        rw open_row (ground (arith, rest))
    | inr miss ↦
        let rest = claim-IsClosed now rs r (rw miss at e) n (rw miss at u) in
        elim (Bool-cases (is_open_reset r.id x)) [
          | inl open_row ↦ rw (open_row, miss) rest
          | inr taken ↦ rw (taken, miss) rest
        ]
  ]

  found-used :
      (rs : List PasswordReset) (r : PasswordReset)
      → find_reset hash_token token rs ≡ some r
      → IsClosed rs
      → is_some r.used_at ≡ true
  found-used [] r e h = cc
  found-used (x ∷ rs) r e h = elim (Bool-cases (has_hash x)) [
    | inl hit ↦
        let this : x ≡ r = ground arith in subst (λ y. is_some y.used_at ≡ true) this (ground arith)
    | inr miss ↦ found-used rs r (rw miss at e) (ground arith)
  ]

  refused :
      (hash : Text) (now : ℕ) (a : Accounts)
      → IsClosed a.resets
      → (redeem_password_reset hash_token token hash now a ≡ err bad_request)
        × ((inspect_password_reset hash_token token now a ≡ used)
            ⊎ (inspect_password_reset hash_token token now a ≡ unknown))
  unfolding redeem_password_reset inspect_password_reset
  refused hash now a h = elim (Option-cases (find_reset hash_token token a.resets)) [
    | inl e ↦ (rw e refl, inr (rw (inspect_password_reset, e) refl))
    | inr (r, e) ↦
        let spent = found-used a.resets r e h in
        (rw (e, spent) refl, inl (rw (inspect_password_reset, e, spent) refl))
  ]

  moved : (b : Accounts) (rs : List PasswordReset) → b.resets ≡ rs → IsClosed rs → IsClosed b.resets
  moved b rs e h = subst IsClosed (sym e) h

  abbrev Closed : Accounts → Type 0
  Closed a = IsClosed a.resets

  change-IsClosed :
      (c : Change) (a : Accounts) → KeepsReset c → Closed a → Closed (change hash_token c a)
  unfolding change create_invite set_password prune_expired_resets issue_session destroy_session
      destroy_all_sessions prune_expired_sessions remove_user
  change-IsClosed (registers r key now) a k h =
      kept_with Closed a h (redeem_invite r key now a)
        (λ b u e. moved b _ (redeem_invite-resets r key now a b u e) h)
  change-IsClosed (invites o key other now) a k h = h
  change-IsClosed (revokes_invite key) a k h =
      kept Closed a h (revoke_invite key a)
        (λ b e. moved b _ (ap (λ x. x.resets) (revoke_invite_inv key a b e)) h)
  change-IsClosed (creates_user o key) a k h =
      kept_with Closed a h (create_user o key a)
        (λ b u e. moved b _ (create_user-rest o key a b u e).1 h)
  change-IsClosed (sets_password key hash) a k h = h
  change-IsClosed (updates_user key o current) a k h =
      kept Closed a h (update_user key o current a)
        (λ b e. moved b _ (update_user-rest key o current a b e).1 h)
  change-IsClosed (deletes_user key current) a k h =
      kept Closed a h (delete_user key current a) (λ b e.
        moved b _ (ap (λ x. x.resets) (delete_user_inv key current a b e)) (
          any-map is_fresh (forget_in_reset key) (λ r n. n) _
            (any-filter is_fresh (λ r. not (r.user_id == key)) a.resets h)))
  change-IsClosed (issues_reset user_id by hours key other now) a k h =
      kept_with Closed a h (create_password_reset hash_token user_id by hours key other now a)
        (λ b r e.
          let (resets, hashed) =
            create_reset_inv hash_token user_id by hours key other now a b r e in
          moved b _ resets (
            any-append is_fresh
              (filter (λ x. not (x.user_id == user_id && is_none x.used_at)) a.resets) (r ∷ [])
            ∙ rw
                (
                  any-filter is_fresh (λ x. not (x.user_id == user_id && is_none x.used_at))
                      a.resets h,
                  hashed,
                  k,
                )
                refl))
  change-IsClosed (redeems_reset other hash now) a k h =
      kept_with Closed a h (redeem_password_reset hash_token other hash now a) (λ b key e.
        let (r, found, n, owner, resets, sessions, users) =
          redeem_inv hash_token other hash now a b key e in
        moved b _ resets (claimed-IsClosed r.id now a.resets h))
  change-IsClosed (prunes_resets now) a k h = any-filter is_fresh _ a.resets h
  change-IsClosed (signs_in days key user_id other now) a k h = h
  change-IsClosed (signs_out none) a k h = h
  change-IsClosed (signs_out (some other)) a k h = h
  change-IsClosed (signs_out_everywhere key) a k h = h
  change-IsClosed (prunes_sessions now) a k h = h

  change_all-IsClosed :
      (cs : List Change) (a : Accounts)
      → All KeepsReset cs
      → Closed a
      → Closed (change_all hash_token cs a)
  unfolding change_all
  change_all-IsClosed [] a k h = h
  change_all-IsClosed (c ∷ cs) a (p, k) h =
      change_all-IsClosed cs (change hash_token c a) k (change-IsClosed c a p h)

-- Where the hashes of tokens differ, a link that has set a password leaves no session of its account,
-- and is refused from then on and shown as used, or as unknown once its row is gone, whatever
-- registrations, changes of accounts, invites, resets and sessions follow.
pub redeem_password_reset-refused :
    (hash_token : Text → Text) (token hash other : Text) (now later id : ℕ) (cs : List Change)
    (a a' : Accounts)
    → count (λ r. text_eq r.token_hash (hash_token token)) a.resets ≤ 1
    → redeem_password_reset hash_token token hash now a ≡ ok (a', id)
    → All (KeepsReset hash_token token) cs
    → All (λ s. (s.user_id == id) ≡ false) a'.sessions
      × (redeem_password_reset hash_token token other later (change_all hash_token cs a')
          ≡ err bad_request)
      × ((inspect_password_reset hash_token token later (change_all hash_token cs a') ≡ used)
          ⊎ (inspect_password_reset hash_token token later (change_all hash_token cs a') ≡ unknown))
redeem_password_reset-refused hash_token token hash other now later id cs a a' unique accepted k =
    let (r, e, n, owner, resets, sessions, users) =
      redeem_inv hash_token token hash now a a' id accepted in
    let closed = claim-IsClosed hash_token token now a.resets r e n unique in
    let after =
      change_all-IsClosed hash_token token cs a' k
        (subst (IsClosed hash_token token) (sym resets) closed) in
    let (no_second, shown) =
      refused hash_token token other later (change_all hash_token cs a') after in
    let (second, used_now, gone) =
      redeem_password_reset-once hash_token token hash other now later a a' id accepted in
    (gone, no_second, shown)
