-- ===== src/Auth/Reset/Laws.antt =====
-- A link of auth/passwordReset.ts is spent once, and signs the account out everywhere.
use circleftp_jellyfin.Base.{
  ℕ, ◌≡◌, refl, sym, ap, subst, List, [], ◌∷◌, none, some, true, false, arith, All, ◌==◌, ==_refl,
  Bool-cases, Option-cases, inl, inr, is_some,
}
use circleftp_jellyfin.Base.Text.{Text, text_eq}
use circleftp_jellyfin.Base.Result.{ok, err, bad_request}
use circleftp_jellyfin.Auth.Model.{
  PasswordReset, Session, Accounts, find_user, update_users, drop_sessions,
}
use circleftp_jellyfin.Auth.Reset.{
  is_open_reset, claim_reset, find_reset, inspect_password_reset, redeem_password_reset, used,
}

abbrev mark_used : ℕ → PasswordReset → PasswordReset
mark_used now r = record r { used_at = some now }

dropped-All :
    (id : ℕ) (ss : List Session) → All (λ s. (s.user_id == id) ≡ false) (drop_sessions id ss)
dropped-All id [] = tt
dropped-All id (s ∷ ss) = elim (Bool-cases (s.user_id == id)) [
  | inl e ↦ rw e (dropped-All id ss)
  | inr e ↦ rw e (e, dropped-All id ss)
]

module _ (hash_token : Text → Text) where
  -- What a redemption that is accepted has found and done.
  pub redeem_inv :
      (token password_hash : Text) (now : ℕ) (a a' : Accounts) (id : ℕ)
      → redeem_password_reset hash_token token password_hash now a ≡ ok (a', id)
      → (r : PasswordReset) × (find_reset hash_token token a.resets ≡ some r)
        × (r.used_at ≡ none)
        × (r.user_id ≡ id)
        × (a'.resets ≡ (claim_reset r.id now a.resets).0)
        × (a'.sessions ≡ drop_sessions id a.sessions)
        × (a'.users ≡ update_users id (λ x. record x { password_hash = password_hash }) a.users)
  unfolding redeem_password_reset
  redeem_inv token password_hash now a a' id h =
      elim (Option-cases (find_reset hash_token token a.resets)) [
        | inl e ↦ ground arith
        | inr (r, e) ↦ elim (Option-cases (find_user r.user_id a.users)) [
          | inl f ↦ ground arith
          | inr (u, f) ↦
              (r, e, ground arith, ground arith, ground arith, ground arith, ground arith)
        ]
      ]

  claim-find :
      (token : Text) (now : ℕ) (rs : List PasswordReset) (r : PasswordReset)
      → find_reset hash_token token rs ≡ some r
      → r.used_at ≡ none
      → find_reset hash_token token (claim_reset r.id now rs).0 ≡ some (mark_used now r)
  unfolding claim_reset
  claim-find token now [] r e n = cc
  claim-find token now (x ∷ rs) r e n =
      elim (Bool-cases (text_eq x.token_hash (hash_token token))) [
        | inl hit ↦
            let this : x ≡ r = ground arith in
            let unspent : is_open_reset r.id x ≡ true =
              subst (λ y. is_open_reset r.id y ≡ true) (sym this) (ground (arith, ==_refl r.id)) in
            rw (unspent, hit) (ap (λ y. some (mark_used now y)) this)
        | inr miss ↦ elim (Bool-cases (is_open_reset r.id x)) [
          | inl unspent ↦ rw (unspent, miss) (claim-find token now rs r (ground arith) n)
          | inr spent ↦ rw (spent, miss) (claim-find token now rs r (ground arith) n)
        ]
      ]

  inspect_used :
      (token : Text) (later : ℕ) (a : Accounts) (r : PasswordReset)
      → find_reset hash_token token a.resets ≡ some r
      → is_some r.used_at ≡ true
      → inspect_password_reset hash_token token later a ≡ used
  unfolding inspect_password_reset
  inspect_used token later a r e h = rw (inspect_password_reset, e, h)

  -- A link that has set a password is refused the next time, when it is shown as used, and no session of
  -- the account is left.
  pub redeem_password_reset-once :
      (token password_hash other : Text) (now later : ℕ) (a a' : Accounts) (id : ℕ)
      → redeem_password_reset hash_token token password_hash now a ≡ ok (a', id)
      → (redeem_password_reset hash_token token other later a' ≡ err bad_request)
        × (inspect_password_reset hash_token token later a' ≡ used)
        × All (λ s. (s.user_id == id) ≡ false) a'.sessions
  unfolding redeem_password_reset
  redeem_password_reset-once token password_hash other now later a a' id h =
      let (r, e, n, owner, resets, sessions, users) =
        redeem_inv token password_hash now a a' id h in
      let found = claim-find token now a.resets r e n in
      (
        rw (resets, found),
        inspect_used token later a' (mark_used now r) (rw resets found) refl,
        rw sessions (dropped-All id a.sessions),
      )
