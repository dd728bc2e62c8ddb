-- ===== src/Auth/Session/Laws.antt =====
-- Who is signed in by auth/session.ts: a fresh token until it expires, and never anyone without a
-- live session and an enabled account.
use circleftp_jellyfin.Base.{
  ℕ, ◌+◌, ◌*◌, ◌<◌, ◌≡◌, refl, List, [], ◌∷◌, ◌++◌, none, some, true, false, arith, if◌then◌else◌,
  leb, ◌∙◌, Bool-cases, Option-cases, inl, inr,
}
use circleftp_jellyfin.Base.Text.{Text, text_eq, text_eq_refl}
use circleftp_jellyfin.Auth.Model.{User, Session, Accounts, find_user}
use circleftp_jellyfin.Auth.Session.{
  SessionUser, issue_session, find_session, session_user, resolve_session,
}

module _ (hash_token : Text → Text) where
  appended-find :
      (token : Text) (ss : List Session) (s : Session)
      → find_session hash_token token ss ≡ none
      → text_eq s.token_hash (hash_token token) ≡ true
      → find_session hash_token token (ss ++ s ∷ []) ≡ some s
  appended-find token [] s e h = rw h refl
  appended-find token (x ∷ ss) s e h = ground (arith, appended-find token ss s)

  module _ (token : Text) (now : ℕ) (a : Accounts) (s : Session)
      (e : find_session hash_token token a.sessions ≡ some s) where
    resolve_over :
        leb s.expires_at now ≡ true → (resolve_session hash_token (some token) now a).0 ≡ none
    unfolding resolve_session
    resolve_over over = rw (resolve_session, e, over) refl

    resolve_live :
        leb s.expires_at now ≡ false
        → (resolve_session hash_token (some token) now a).0
          ≡ session_user hash_token (find_user s.user_id a.users)
    unfolding resolve_session
    resolve_live live = rw (resolve_session, e, live) refl

  -- A token that was not in use signs its enabled user in from its issue on until it expires, and
  -- nobody afterwards.
  pub issue_session-resolve_session :
      (ttl_days id user_id : ℕ) (token : Text) (now later : ℕ) (a : Accounts) (u : User)
      → find_session hash_token token a.sessions ≡ none
      → find_user user_id a.users ≡ some u
      → u.disabled ≡ false
      → (resolve_session hash_token
          (some token)
          later
          (issue_session hash_token ttl_days id user_id token now a).0).0
        ≡ (if leb (now + ttl_days * 24 * 60 * 60 * 1000) later
            then none
            else some (record { id = u.id; email = u.email; name = u.name; role = u.role }))
  unfolding issue_session
  issue_session-resolve_session ttl_days id user_id token now later a u fresh e enabled =
      let expires_at = now + ttl_days * 24 * 60 * 60 * 1000 in
      let row : Session = record {
        id = id;
        token_hash = hash_token token;
        user_id = user_id;
        expires_at = expires_at;
      } in
      let found = appended-find token a.sessions row fresh (text_eq_refl (hash_token token)) in
      elim (Bool-cases (leb expires_at later)) [
        | inl over ↦
            resolve_over token later (issue_session hash_token ttl_days id user_id token now a).0
              row found over
            ∙ rw over refl
        | inr live ↦
            resolve_live token later (issue_session hash_token ttl_days id user_id token now a).0
              row found live
            ∙ rw (live, e, enabled) refl
      ]

  -- A live session for the token, and the enabled account that it names.
  abbrev pub LiveAs : Text → ℕ → Accounts → SessionUser → Type 0
  LiveAs token now a who =
      (s : Session) × (u : User) × (find_session hash_token token a.sessions ≡ some s)
      × (now < s.expires_at)
      × (find_user s.user_id a.users ≡ some u)
      × (u.disabled ≡ false)
      × (who ≡ record { id = u.id; email = u.email; name = u.name; role = u.role })

  -- Whoever a request is taken for has a session for its token that has not expired and an account
  -- that is not disabled.
  pub resolve_session-LiveAs :
      (token : Text) (now : ℕ) (a : Accounts) (who : SessionUser)
      → (resolve_session hash_token (some token) now a).0 ≡ some who
      → LiveAs token now a who
  unfolding resolve_session
  resolve_session-LiveAs token now a who h =
      elim (Option-cases (find_session hash_token token a.sessions)) [
        | inl e ↦ ground arith
        | inr (s, e) ↦ elim (Option-cases (find_user s.user_id a.users)) [
          | inl f ↦ ground arith
          | inr (u, f) ↦ (s, u, e, ground arith, f, ground arith, ground arith)
        ]
      ]
