-- ===== src/Routes/Accounts/Laws.antt =====
-- What a change of the own password does to the sessions.
use circleftp_jellyfin.Base.{
  ℕ, ◌+◌, ◌*◌, ◌≡◌, ◌≢◌, refl, sym, ap, subst, ◌∙◌, List, [], ◌∷◌, ◌++◌, some, Bool, true, false,
  ◌==◌, ==_iff, arith, Bool-cases, Option-cases, inl, inr, eq_of_some,
}
use circleftp_jellyfin.Base.Text.{Text, text_eq}
use circleftp_jellyfin.Base.Result.{ok}
use circleftp_jellyfin.Auth.Model.{User, Session, Accounts, find_user, update_users, drop_sessions}
use circleftp_jellyfin.Auth.Session.{
  SessionUser, find_session, resolve_session, issue_session, destroy_all_sessions,
}
use circleftp_jellyfin.Auth.Session.Laws.{resolve_session-LiveAs}
use circleftp_jellyfin.Auth.Users.{set_password}
use circleftp_jellyfin.Auth.Middleware.{require_auth}
use circleftp_jellyfin.Routes.Accounts.{NewSession, sign_in, change_password}

pub find-user_id : (id : ℕ) (us : List User) (u : User) → find_user id us ≡ some u → u.id ≡ id
find-user_id id [] u h = absurd (cc)
find-user_id id (x ∷ us) u h = elim (Bool-cases (x.id == id)) [
  | inl e ↦ ap (λ y. y.id) (eq_of_some (sym (rw e at h))) ∙ (==_iff x.id id).0 e
  | inr e ↦ find-user_id id us u (rw e at h)
]

find-update_users :
    (id : ℕ) (f : User → User) (us : List User) (u : User)
    → ((x : User) → (f x).id ≡ x.id)
    → find_user id us ≡ some u
    → find_user id (update_users id f us) ≡ some (f u)
find-update_users id f [] u keeps h = absurd (cc)
find-update_users id f (x ∷ us) u keeps h = elim (Bool-cases (x.id == id)) [
  | inl e ↦ rw (e, ap (λ i. i == id) (keeps x) ∙ e) (ap (λ y. some (f y)) (eq_of_some (rw e at h)))
  | inr e ↦ rw (e, e) (find-update_users id f us u keeps (rw e at h))
]

module _ (hash_token : Text → Text) where
  -- A session that is found beside the new one is not the user's.
  evicted-find :
      (id : ℕ) (token : Text) (ss : List Session) (row s : Session)
      → text_eq row.token_hash (hash_token token) ≡ false
      → find_session hash_token token (drop_sessions id ss ++ row ∷ []) ≡ some s
      → (s.user_id == id) ≡ false
  evicted-find id token [] row s other h = absurd (ground arith)
  evicted-find id token (x ∷ ss) row s other h = elim (Bool-cases (x.user_id == id)) [
    | inl e ↦ evicted-find id token ss row s other (rw e at h)
    | inr e ↦ elim (Bool-cases (text_eq x.token_hash (hash_token token))) [
      | inl hit ↦
          let this : x ≡ s = eq_of_some (rw (e, hit) at h) in
          subst (λ y. (y.user_id == id) ≡ false) this e
      | inr miss ↦ evicted-find id token ss row s other (rw (e, miss) at h)
    ]
  ]

  module _ (ttl_days : ℕ) (verify : Text → Text → Bool) (hash_password : Text → Text) where
    -- What a change of the password that is accepted has done.
    change_password_inv :
        (who : SessionUser) (current password : Text) (new : NewSession) (now : ℕ) (a a' : Accounts)
        → change_password hash_token ttl_days verify hash_password
            (some who)
            current
            password
            new
            now
            a
          ≡ ok a'
        → (u : User) × (find_user who.id a.users ≡ some u)
          × (verify current u.password_hash ≡ true)
          × (a'
              ≡ sign_in hash_token ttl_days verify hash_password u.id new now
                  (destroy_all_sessions u.id (set_password u.id (hash_password password) a)))
    unfolding change_password require_auth
    change_password_inv who current password new now a a' h =
        elim (Option-cases (find_user who.id a.users)) [
          | inl e ↦ ground arith
          | inr (u, e) ↦ elim (Bool-cases (verify current u.password_hash)) [
            | inl v ↦ elim (Bool-cases (text_eq current password)) [
              | inl t ↦ ground arith
              | inr t ↦ (u, e, v, ground arith)
            ]
            | inr v ↦ ground arith
          ]
        ]

    -- A new session after all sessions of the user have been destroyed is the only one.
    sign_in-evicts :
        (id : ℕ) (new : NewSession) (now later : ℕ) (a : Accounts) (token : Text)
        (other : SessionUser)
        → text_eq (hash_token new.token) (hash_token token) ≡ false
        → (resolve_session hash_token (some token) later (
            sign_in hash_token ttl_days verify hash_password id new now
              (destroy_all_sessions id a))).0
          ≡ some other
        → other.id ≢ id
    unfolding sign_in issue_session destroy_all_sessions
    sign_in-evicts id new now later a token other apart taken same =
        let after =
          sign_in hash_token ttl_days verify hash_password id new now (destroy_all_sessions id a) in
        let (s, v, found, live, named, enabled, shown) =
          resolve_session-LiveAs hash_token token later after other taken in
        let row : Session = record {
          id = new.id;
          token_hash = hash_token new.token;
          user_id = id;
          expires_at = now + ttl_days * 24 * 60 * 60 * 1000;
        } in
        let foreign : (s.user_id == id) ≡ false =
          evicted-find id token a.sessions row s apart found in
        let own : s.user_id ≡ id =
          sym (find-user_id s.user_id after.users v named) ∙ sym (ap (λ w. w.id) shown) ∙ same in
        ground (arith, foreign, own)

    -- Whoever changes the own password has given the old one; the hash of the new one is stored; and in
    -- the accounts as the change leaves them no token but that of the new session is taken for the user,
    -- at whatever time and whoever was signed in before.
    pub change_password-evicts :
        (who : SessionUser) (current password : Text) (new : NewSession) (now : ℕ) (a a' : Accounts)
        → change_password hash_token ttl_days verify hash_password
            (some who)
            current
            password
            new
            now
            a
          ≡ ok a'
        → ((u : User) × (find_user who.id a.users ≡ some u)
            × (verify current u.password_hash ≡ true)
            × (find_user who.id a'.users
                ≡ some (record u { password_hash = hash_password password })))
          × ((token : Text) (later : ℕ) (other : SessionUser)
              → text_eq (hash_token new.token) (hash_token token) ≡ false
              → (resolve_session hash_token (some token) later a').0 ≡ some other
              → other.id ≢ who.id)
    unfolding sign_in issue_session destroy_all_sessions set_password
    change_password-evicts who current password new now a a' h =
        let (u, found, verified, e) = change_password_inv who current password new now a a' h in
        let own : u.id ≡ who.id = find-user_id who.id a.users u found in
        (
          (u, found, verified, stored u own found e),
          λ token later other apart taken same.
              sign_in-evicts u.id new now later (set_password u.id (hash_password password) a) token
                other apart
                (ap (λ b. (resolve_session hash_token (some token) later b).0) (sym e) ∙ taken)
                (same ∙ sym own),
        )
      where
        replace : User → User
        replace x = record x { password_hash = hash_password password }

        stored :
            (u : User)
            → u.id ≡ who.id
            → find_user who.id a.users ≡ some u
            → a'
              ≡ sign_in hash_token ttl_days verify hash_password u.id new now
                  (destroy_all_sessions u.id (set_password u.id (hash_password password) a))
            → find_user who.id a'.users ≡ some (replace u)
        stored u own found e =
            ap (λ b. find_user who.id b.users) e
            ∙ ap (λ i. find_user who.id (update_users i replace a.users)) own
            ∙ find-update_users who.id replace a.users u (λ x. refl) found
