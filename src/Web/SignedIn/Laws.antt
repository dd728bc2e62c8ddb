-- ===== src/Web/SignedIn/Laws.antt =====
-- What signing in and out in the browser comes to when the page is loaded again.
use circleftp_jellyfin.Base.{
  ℕ, ◌+◌, ◌*◌, ◌≡◌, refl, sym, ap, ◌∙◌, List, [], ◌∷◌, Option, none, some, Bool, true, false, not,
  arith, if◌then◌else◌, leb, filter, Bool-cases, Option-cases, inl, inr,
}
use circleftp_jellyfin.Base.Text.{Text, text_eq}
use circleftp_jellyfin.Base.Result.{ok, err, unauthorized}
use circleftp_jellyfin.Auth.Model.{User, Session, Accounts, find_user, find_email}
use circleftp_jellyfin.Auth.Session.{issue_session, find_session, resolve_session, destroy_session}
use circleftp_jellyfin.Auth.Session.Laws.{issue_session-resolve_session}
use circleftp_jellyfin.Routes.Accounts.{NewSession, login, logout, me, sign_in}
use circleftp_jellyfin.Web.SignedIn.{
  Passage, answered, unreached, reply_lost, Browser, to_user_dto, attached, ask_me, load_user,
  refresh_user, log_in, log_out,
}

abbrev pub is_reached : Passage → Bool
is_reached unreached = false
is_reached _ = true

module _ (hash_token : Text → Text) where
  attached-users :
      (cookie : Option Text) (now : ℕ) (a : Accounts)
      → (resolve_session hash_token cookie now a).1.users ≡ a.users
  unfolding resolve_session
  attached-users none now a = refl
  attached-users (some token) now a =
      elim (Option-cases (find_session hash_token token a.sessions)) [
        | inl e ↦ rw (resolve_session, e) refl
        | inr (s, e) ↦ elim (Bool-cases (leb s.expires_at now)) [
          | inl over ↦ rw (resolve_session, e, over) refl
          | inr live ↦ rw (resolve_session, e, live) refl
        ]
      ]

  destroyed-find :
      (token : Text) (ss : List Session)
      → find_session hash_token token
          (filter (λ s. not (text_eq s.token_hash (hash_token token))) ss)
        ≡ none
  destroyed-find token [] = refl
  destroyed-find token (s ∷ ss) = ground (arith, destroyed-find token ss)

  destroyed-resolve_session :
      (token : Text) (later : ℕ) (a : Accounts)
      → (resolve_session hash_token
          (some token)
          later
          (destroy_session hash_token (some token) a)).0
        ≡ none
  unfolding resolve_session destroy_session
  destroyed-resolve_session token later a =
      rw (resolve_session, destroyed-find token a.sessions) refl

  module _ (ttl_days : ℕ) (verify : Text → Text → Bool) (hash_password : Text → Text) where
    login_inv :
        (email password : Text) (new : NewSession) (now : ℕ) (a a' : Accounts) (u : User)
        → login hash_token ttl_days verify hash_password email password new now a ≡ ok (a', u)
        → (a' ≡ (issue_session hash_token ttl_days new.id u.id new.token now a).0)
          × (u.disabled ≡ false)
    unfolding login sign_in
    login_inv email password new now a a' u h = elim (Option-cases (find_email email a.users)) [
      | inl e ↦ ground arith
      | inr (v, e) ↦ elim (Bool-cases (verify password v.password_hash)) [
        | inr w ↦ ground arith
        | inl w ↦ elim (Bool-cases v.disabled) [
          | inl d ↦ ground arith
          | inr d ↦
              let issued =
                λ (i : ℕ). (issue_session hash_token ttl_days new.id i new.token now a).0 in
              let same : v ≡ u = ground arith in
              let left : issued v.id ≡ a' = ground arith in
              (sym left ∙ ap (λ x. issued x.id) same, ap (λ x. x.disabled) (sym same) ∙ d)
        ]
      ]
    ]

    -- A page that is loaded while the session of its cookie lives.
    ask_me-issued :
        (new : NewSession) (now later : ℕ) (a : Accounts) (u : User)
        → find_session hash_token new.token a.sessions ≡ none
        → find_user u.id a.users ≡ some u
        → u.disabled ≡ false
        → leb (now + ttl_days * 24 * 60 * 60 * 1000) later ≡ false
        → ask_me hash_token ttl_days verify hash_password
            (some new.token)
            later
            (issue_session hash_token ttl_days new.id u.id new.token now a).0
          ≡ ok u
    unfolding me issue_session
    ask_me-issued new now later a u fresh found enabled live =
        let after = (issue_session hash_token ttl_days new.id u.id new.token now a).0 in
        let who : (resolve_session hash_token (some new.token) later after).0
            ≡ some (to_user_dto u) =
          issue_session-resolve_session hash_token ttl_days new.id u.id new.token now later a u
            fresh found enabled
          ∙ rw live refl in
        let own : find_user u.id (resolve_session hash_token (some new.token) later after).1.users
            ≡ some u =
          ap (find_user u.id) (attached-users (some new.token) later after) ∙ found in
        rw (who, own) refl

    ask_me-destroyed :
        (token : Text) (later : ℕ) (a : Accounts)
        → ask_me hash_token ttl_days verify hash_password
            (some token)
            later
            (logout hash_token ttl_days verify hash_password (some token) a)
          ≡ err unauthorized
    unfolding me logout
    ask_me-destroyed token later a = rw (destroyed-resolve_session token later a) refl

    ask_me-none :
        (later : ℕ) (a : Accounts)
        → ask_me hash_token ttl_days verify hash_password none later a ≡ err unauthorized
    unfolding me resolve_session
    ask_me-none later a = refl

    log_in-issued :
        (email password : Text) (new : NewSession) (now : ℕ) (b : Browser) (a a' : Accounts)
        (u : User)
        → login hash_token ttl_days verify hash_password email password new now
            (attached hash_token ttl_days verify hash_password b.cookie now a)
          ≡ ok (a', u)
        → log_in hash_token ttl_days verify hash_password email password new now (b, a) ≡ (
          record b { user = some (to_user_dto u); cookie = some new.token },
          (issue_session hash_token ttl_days new.id u.id new.token now
              (attached hash_token ttl_days verify hash_password b.cookie now a)).0,
        )
    unfolding log_in
    log_in-issued email password new now b a a' u accepted =
        let before = attached hash_token ttl_days verify hash_password b.cookie now a in
        let (issued, enabled) = login_inv email password new now before a' u accepted in
        rw (accepted, issued) refl

    -- A logout of a browser that has just signed in, and the page that is loaded afterwards.
    log_out-load_user :
        (new : NewSession) (now at later : ℕ) (p : Passage) (b : Browser) (a : Accounts) (u : User)
        → b.cookie ≡ some new.token
        → find_session hash_token new.token a.sessions ≡ none
        → find_user u.id a.users ≡ some u
        → u.disabled ≡ false
        → leb (now + ttl_days * 24 * 60 * 60 * 1000) later ≡ false
        → (load_user hash_token ttl_days verify hash_password answered later (
            log_out hash_token ttl_days verify hash_password p at
              (b, (issue_session hash_token ttl_days new.id u.id new.token now a).0))).0.user
          ≡ (if is_reached p then none else some (to_user_dto u))
    unfolding log_out load_user me
    log_out-load_user new now at later answered b a u c fresh found enabled live =
        let issued = (issue_session hash_token ttl_days new.id u.id new.token now a).0 in
        rw
          (ask_me-none later (
            logout hash_token ttl_days verify hash_password b.cookie
              (attached hash_token ttl_days verify hash_password b.cookie at issued)))
          refl
    log_out-load_user new now at later unreached b a u c fresh found enabled live =
        rw (c, ask_me-issued new now later a u fresh found enabled live) refl
    log_out-load_user new now at later reply_lost b a u c fresh found enabled live =
        let issued = (issue_session hash_token ttl_days new.id u.id new.token now a).0 in
        rw
          (
            c,
            ask_me-destroyed new.token later
                (attached hash_token ttl_days verify hash_password (some new.token) at issued),
          )
          refl

    log_out-user :
        (p : Passage) (at : ℕ) (s : Browser × Accounts)
        → (log_out hash_token ttl_days verify hash_password p at s).0.user ≡ none
    unfolding log_out
    log_out-user answered at (b, a) = refl
    log_out-user unreached at (b, a) = refl
    log_out-user reply_lost at (b, a) = refl

    -- Where the server answers, `refreshUser` shows whom a new page shows.
    refresh_user-load_user :
        (now : ℕ) (s : Browser × Accounts)
        → (refresh_user hash_token ttl_days verify hash_password answered now s).0.user
          ≡ (load_user hash_token ttl_days verify hash_password answered now s).0.user
    unfolding refresh_user load_user me
    refresh_user-load_user now (b, a) =
        elim (Option-cases (resolve_session hash_token b.cookie now a).0) [
          | inl e ↦ rw e refl
          | inr (who, e) ↦
              elim (Option-cases (
                find_user who.id
                  (attached hash_token ttl_days verify hash_password b.cookie now a).users)) [
                    | inl none_found ↦ rw (e, none_found) refl
                    | inr (u, found) ↦ rw (e, found) refl
                  ]
        ]

    -- After a login that the server has accepted, of a user whom its id finds and with a token that was
    -- not in use, a logout leaves nobody shown, whatever becomes of its request; but where the page is
    -- loaded again and answered before the new session has expired, the same user is signed in again
    -- exactly if the request of the logout has not reached the server.
    pub log_in-log_out :
        (email password : Text) (new : NewSession) (now at later : ℕ) (p : Passage) (b : Browser)
        (a a' : Accounts) (u : User)
        → find_session hash_token new.token
            (attached hash_token ttl_days verify hash_password b.cookie now a).sessions
          ≡ none
        → login hash_token ttl_days verify hash_password email password new now
            (attached hash_token ttl_days verify hash_password b.cookie now a)
          ≡ ok (a', u)
        → find_user u.id a.users ≡ some u
        → leb (now + ttl_days * 24 * 60 * 60 * 1000) later ≡ false
        → let signed_in =
            log_in hash_token ttl_days verify hash_password email password new now (b, a) in
          let left = log_out hash_token ttl_days verify hash_password p at signed_in in
          (signed_in.0.user ≡ some (to_user_dto u))
          × (left.0.user ≡ none)
          × ((load_user hash_token ttl_days verify hash_password answered later left).0.user
              ≡ (if is_reached p then none else some (to_user_dto u)))
    log_in-log_out email password new now at later p b a a' u fresh accepted found live =
        let before = attached hash_token ttl_days verify hash_password b.cookie now a in
        let (issued, enabled) = login_inv email password new now before a' u accepted in
        let path = log_in-issued email password new now b a a' u accepted in
        let own = ap (find_user u.id) (attached-users b.cookie now a) ∙ found in
        (
          ap (λ s. s.0.user) path,
          log_out-user p at
              (log_in hash_token ttl_days verify hash_password email password new now (b, a)),
          ap
                (λ s.
                  (load_user hash_token ttl_days verify hash_password answered later
                    (log_out hash_token ttl_days verify hash_password p at s)).0.user)
                path
              ∙ log_out-load_user new now at later p
                  (record b { user = some (to_user_dto u); cookie = some new.token }) before u refl
                  fresh own enabled live,
        )
