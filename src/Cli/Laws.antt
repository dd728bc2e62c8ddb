-- ===== src/Cli/Laws.antt =====
-- The commands of cli/manage.ts, and who can sign in after them.
use circleftp_jellyfin.Base.{
  ℕ, ◌≡◌, ◌≢◌, refl, sym, ap, subst, ◌∙◌, List, [], ◌∷◌, ◌++◌, Option, none, some, Bool, true,
  false, ◌==◌, ==_refl, arith, map, Bool-cases, Option-cases, inl, inr, eq_of_some, get_or_else,
}
use circleftp_jellyfin.Base.Text.{Text, text_eq, text_eq_refl, trim, to_lower_char}
use circleftp_jellyfin.Base.Result.{Result, ok, err}
use circleftp_jellyfin.Auth.Model.{
  Role, User, Session, Accounts, find_email, update_users, drop_sessions,
}
use circleftp_jellyfin.Auth.Session.{SessionUser, find_session, resolve_session}
use circleftp_jellyfin.Auth.Session.Laws.{resolve_session-LiveAs}
use circleftp_jellyfin.Auth.Users.{
  CreateUserOptions, create_user, new_user, normal_email, set_password,
}
use circleftp_jellyfin.Routes.Accounts.{NewSession, sign_in, login}
use circleftp_jellyfin.Routes.Accounts.Laws.{find-user_id}
use circleftp_jellyfin.Cli.Parsing.{Flags}
use circleftp_jellyfin.Cli.{
  Outcome, ◌>>=◌, called, or_fail, account_options, done, cli_error, api_error, raw_email,
  resolve_password, role_of, user_create, user_passwd,
}

find_email-append :
    (email : Text) (us : List User) (u : User)
    → find_email email us ≡ none
    → u.email ≡ email
    → find_email email (us ++ u ∷ []) ≡ some u
find_email-append email [] u h e = rw (e, text_eq_refl email) refl
find_email-append email (x ∷ us) u h e = ground (arith, find_email-append email us u)

create_user_inv :
    (o : CreateUserOptions) (id : ℕ) (a a' : Accounts) (u : User)
    → create_user o id a ≡ ok (a', u)
    → (find_email (normal_email o.email) a.users ≡ none)
      × (u
          ≡ new_user id
              (normal_email o.email)
              (trim o.name)
              o.password_hash
              (get_or_else o.role Role.user))
      × (a'.users ≡ a.users ++ u ∷ [])
unfolding create_user
create_user_inv o id a a' u h = elim (Option-cases (find_email (normal_email o.email) a.users)) [
  | inl e ↦ (e, ground (arith, e), ground (arith, e))
  | inr (x, e) ↦ absurd (ground (arith, e))
]

find_email-update :
    (email : Text) (f : User → User) (us : List User) (u : User)
    → ((x : User) → (f x).email ≡ x.email)
    → find_email email us ≡ some u
    → find_email email (update_users u.id f us) ≡ some (f u)
find_email-update email f [] u keeps h = cc
find_email-update email f (x ∷ us) u keeps h = elim (Bool-cases (text_eq x.email email)) [
  | inl e ↦
      let this : x ≡ u = eq_of_some (rw e at h) in ground (arith, this, ==_refl u.id, keeps u, e)
  | inr e ↦ ground (arith, e, keeps x, find_email-update email f us u keeps)
]

module _ (hash_token : Text → Text) where
  dropped-find :
      (id : ℕ) (token : Text) (ss : List Session) (s : Session)
      → find_session hash_token token (drop_sessions id ss) ≡ some s
      → (s.user_id == id) ≡ false
  dropped-find id token [] s h = cc
  dropped-find id token (x ∷ ss) s h = elim (Bool-cases (x.user_id == id)) [
    | inl e ↦ dropped-find id token ss s (rw e at h)
    | inr e ↦ elim (Bool-cases (text_eq x.token_hash (hash_token token))) [
      | inl hit ↦ subst (λ y. (y.user_id == id) ≡ false) (eq_of_some (rw (e, hit) at h)) e
      | inr miss ↦ dropped-find id token ss s (rw (e, miss) at h)
    ]
  ]

-- What a command that is done has been through.
>>=_inv {ℓ κ} :
    {V : Type ℓ} {W : Type κ} (m : Outcome V) (next : V → Outcome W) (b : W)
    → (m >>= next) ≡ done b
    → (a : V) × (m ≡ done a) × (next a ≡ done b)
>>=_inv cli_error next b h = absurd (cc)
>>=_inv (api_error e) next b h = absurd (cc)
>>=_inv (done a) next b h = (a, refl, h)

called_inv {ℓ} : {A : Type ℓ} (r : Result A) (a : A) → called r ≡ done a → r ≡ ok a
called_inv (err e) a h = absurd (cc)
called_inv (ok x) a h = cc

or_fail_inv {ℓ} : {A : Type ℓ} (o : Option A) (a : A) → or_fail o ≡ done a → o ≡ some a
or_fail_inv none a h = absurd (cc)
or_fail_inv (some x) a h = cc

module _ (email_schema : Text → Option Text) (hash_password : Text → Text) where
  user_create_inv :
      (flags : Flags) (typed : Option Text) (random : Text) (id : ℕ) (a a' : Accounts) (u : User)
      (password : Text) (generated : Bool)
      → user_create email_schema hash_password flags typed random id a
        ≡ done (a', u, password, generated)
      → (o : CreateUserOptions) × (o.password_hash ≡ hash_password password)
        × (o.role ≡ some (role_of flags))
        × (create_user o id a ≡ ok (a', u))
  unfolding user_create
  user_create_inv flags typed random id a a' u password generated h =
      let (raw, e1, h1) = >>=_inv (or_fail (raw_email flags typed)) _ _ h in
      let (email, e2, h2) = >>=_inv (or_fail (email_schema raw)) _ _ h1 in
      let ((p, g), e3, h3) = >>=_inv (resolve_password flags random) _ _ h2 in
      let o = account_options flags email (hash_password p) in
      let ((b, v), e4, h4) = >>=_inv (called (create_user o id a)) _ _ h3 in
      let (same, other, this) = parts h4 in
      (
        o,
        ap hash_password this,
        refl,
        called_inv (create_user o id a) (b, v) e4 ∙ (λ i. ok (same i, other i)),
      )
    where
      parts :
          {b : Accounts} {v : User} {p : Text} {g : Bool}
          → ◌≡◌ {A = Outcome (Accounts × User × Text × Bool)}
              (done (b, v, p, g))
              (done (a', u, password, generated))
          → (b ≡ a') × (v ≡ u) × (p ≡ password)
      parts e = (cc, cc, cc)

  -- The account that user:create has made can sign in with the email and the password that it
  -- reports, with the role that the flags ask for.
  pub user_create-login :
      (hash_token : Text → Text) (ttl_days : ℕ) (verify : Text → Text → Bool)
      → ((p : Text) → verify p (hash_password p) ≡ true)
      → (flags : Flags) (typed : Option Text) (random : Text) (id : ℕ) (a a' : Accounts) (u : User)
        (password : Text) (generated : Bool) (new : NewSession) (now : ℕ)
      → user_create email_schema hash_password flags typed random id a
        ≡ done (a', u, password, generated)
      → (u.role ≡ role_of flags)
        × (login hash_token ttl_days verify hash_password u.email password new now a'
            ≡ ok (sign_in hash_token ttl_days verify hash_password u.id new now a', u))
  unfolding login
  user_create-login hash_token ttl_days verify honest flags typed random id a a' u password
        generated new now h =
      let (o, hashed, role, made) =
        user_create_inv flags typed random id a a' u password generated h in
      let (free, this, users) = create_user_inv o id a a' u made in
      let stored : u.password_hash ≡ hash_password password =
        ap (λ v. v.password_hash) this ∙ hashed in
      let enabled : u.disabled ≡ false = ap (λ v. v.disabled) this in
      let found : find_email u.email a'.users ≡ some u =
        ap (find_email u.email) users
        ∙ find_email-append u.email a.users u
            (ap (λ e. find_email e a.users) (ap (λ v. v.email) this) ∙ free) refl in
      (
        ap (λ v. v.role) this ∙ ap (λ r. get_or_else r Role.user) role,
        rw (found, ap (verify password) stored ∙ honest password, enabled) refl,
      )

  user_passwd_inv :
      (flags : Flags) (typed : Option Text) (random : Text) (a a' : Accounts) (password : Text)
      (generated : Bool) (ended : ℕ)
      → user_passwd email_schema hash_password flags typed random a
        ≡ done (a', password, generated, ended)
      → (raw : Text) × (u : User) × (raw_email flags typed ≡ some raw)
        × (find_email (normal_email raw) a.users ≡ some u)
        × (a'.users
            ≡ update_users u.id (λ x. record x { password_hash = hash_password password }) a.users)
        × (a'.sessions ≡ drop_sessions u.id a.sessions)
  unfolding user_passwd set_password
  user_passwd_inv flags typed random a a' password generated ended h =
      let (raw, e1, h1) = >>=_inv (or_fail (raw_email flags typed)) _ _ h in
      let email = map to_lower_char (trim raw) in
      let (u, e2, h2) = >>=_inv (or_fail (find_email email a.users)) _ _ h1 in
      let ((p, g), e3, h3) = >>=_inv (resolve_password flags random) _ _ h2 in
      (
        raw,
        u,
        or_fail_inv (raw_email flags typed) raw e1,
        or_fail_inv (find_email email a.users) u e2,
        sym (ap (λ x. (state x).users) h3)
            ∙ ap
                (λ q. update_users u.id (λ x. record x { password_hash = hash_password q }) a.users)
                (ap secret h3),
        sym (ap (λ x. (state x).sessions) h3),
      )
    where
      state : Outcome (Accounts × Text × Bool × ℕ) → Accounts
      state cli_error = a
      state (api_error e) = a
      state (done (b, p, g, n)) = b

      secret : Outcome (Accounts × Text × Bool × ℕ) → Text
      secret cli_error = []
      secret (api_error e) = []
      secret (done (b, p, g, n)) = p

  -- The command user:passwd finds the account with the email that is given or typed, stores the new
  -- password for it, and from then on no token is taken for that account until it signs in again.
  pub user_passwd-evicts :
      (hash_token : Text → Text) (flags : Flags) (typed : Option Text) (random : Text)
      (a a' : Accounts) (password : Text) (generated : Bool) (ended : ℕ)
      → user_passwd email_schema hash_password flags typed random a
        ≡ done (a', password, generated, ended)
      → (raw : Text) × (u : User) × (raw_email flags typed ≡ some raw)
        × (find_email (normal_email raw) a.users ≡ some u)
        × (find_email (normal_email raw) a'.users
            ≡ some (record u { password_hash = hash_password password }))
        × ((token : Text) (later : ℕ) (other : SessionUser)
            → (resolve_session hash_token (some token) later a').0 ≡ some other
            → other.id ≢ u.id)
  user_passwd-evicts hash_token flags typed random a a' password generated ended h =
      let (raw, u, given, found, users, sessions) =
        user_passwd_inv flags typed random a a' password generated ended h in
      (
        raw,
        u,
        given,
        found,
        ap (find_email (normal_email raw)) users
            ∙ find_email-update (normal_email raw)
                (λ x. record x { password_hash = hash_password password }) a.users u (λ x. refl)
                found,
        λ token later other taken same.
            let (s, v, hit, live, named, enabled, shown) =
              resolve_session-LiveAs hash_token token later a' other taken in
            let foreign : (s.user_id == u.id) ≡ false =
              dropped-find hash_token u.id token a.sessions s
                (ap (find_session hash_token token) (sym sessions) ∙ hit) in
            let own : s.user_id ≡ u.id =
              sym (find-user_id s.user_id a'.users v named) ∙ sym (ap (λ w. w.id) shown) ∙ same in
            ground (arith, foreign, own),
      )
