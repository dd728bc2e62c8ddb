-- ===== src/Routes/Admin/Laws.antt =====
-- The administrators that are left after the requests of routes/admin.ts.
use circleftp_jellyfin.Base.{
  ℕ, ◌<◌, ◌≡◌, refl, sym, subst, List, [], ◌∷◌, ◌++◌, Option, none, some, Bool, true, false, not,
  ◌==◌, ==_iff, any, count-append, filter, arith, Bool-cases, inl, inr, get_or_else,
}
use circleftp_jellyfin.Base.Text.{Text, trim}
use circleftp_jellyfin.Base.Result.{Result, ok, err}
use circleftp_jellyfin.Auth.Model.{user, User, Accounts, update_users, remove_user}
use circleftp_jellyfin.Auth.Session.{SessionUser, resolve_session}
use circleftp_jellyfin.Auth.Users.{
  CreateUserOptions, create_user, create_invite, normal_email, new_user,
}
use circleftp_jellyfin.Auth.Admin.{
  is_active_admin, change_user, delete_user, revoke_sessions, revoke_invite,
}
use circleftp_jellyfin.Auth.Admin.Lockout.{
  IdsDiffer, admins, update_user_inv, update_user-admins, delete_user-admins,
}
use circleftp_jellyfin.Auth.Reset.{create_password_reset}
use circleftp_jellyfin.Auth.Middleware.{Request, attach_user, require_admin}
use circleftp_jellyfin.Routes.Admin.{
  AdminRequest, create_account, update_account, delete_account, end_sessions, reset_link,
  new_invite, drop_invite, accounts_of, perform, handle_admin, settled, answered, serve_admin,
}

-- Some administrator can sign in, and no key of an account stands twice.
pub record IsGoverned (us : List User) : Type 0 where
  pub ids : IdsDiffer us
  pub governed : 0 < admins us

abbrev has_user : List User → ℕ → Bool
has_user us i = any (λ v. v.id == i) us

-- The database gives new keys.
abbrev pub IsNew : AdminRequest → Accounts → Type 0
IsNew (create_account o id) a = has_user a.users id ≡ false
IsNew _ a = Unit

-- Whether a request is about sessions, links and invites only.
abbrev leaves_users : AdminRequest → Bool
leaves_users (create_account o id) = false
leaves_users (update_account id o) = false
leaves_users (delete_account id) = false
leaves_users _ = true

has_user-append :
    (us : List User) (u : User) (i : ℕ)
    → has_user us i ≡ false
    → (u.id == i) ≡ false
    → has_user (us ++ u ∷ []) i ≡ false
has_user-append [] u i h k = rw k refl
has_user-append (x ∷ us) u i h k = ground (arith, has_user-append us u i)

append-IdsDiffer :
    (us : List User) (u : User) → has_user us u.id ≡ false → IdsDiffer us → IdsDiffer (us ++ u ∷ [])
append-IdsDiffer [] u h d = (refl, tt)
append-IdsDiffer (x ∷ us) u h (out, d) = (
  has_user-append us u x.id out (ground (arith, ==_iff u.id x.id, ==_iff x.id u.id)),
  append-IdsDiffer us u (ground arith) d,
)

module _ (id : ℕ) (f : User → User) (keeps : (u : User) → (f u).id ≡ u.id) where
  has_user-update : (us : List User) (i : ℕ) → has_user (update_users id f us) i ≡ has_user us i
  has_user-update [] i = refl
  has_user-update (u ∷ us) i = ground (arith, has_user-update us i, keeps u)

  update-IdsDiffer : (us : List User) → IdsDiffer us → IdsDiffer (update_users id f us)
  update-IdsDiffer [] d = tt
  update-IdsDiffer (u ∷ us) (out, d) =
      (ground (arith, has_user-update us u.id, keeps u), update-IdsDiffer us d)

module _ (p : User → Bool) where
  has_user-filter :
      (us : List User) (i : ℕ) → has_user us i ≡ false → has_user (filter p us) i ≡ false
  has_user-filter [] i h = refl
  has_user-filter (u ∷ us) i h = ground (arith, has_user-filter us i)

  filter-IdsDiffer : (us : List User) → IdsDiffer us → IdsDiffer (filter p us)
  filter-IdsDiffer [] d = tt
  filter-IdsDiffer (u ∷ us) (out, d) = elim (Bool-cases (p u)) [
    | inl e ↦ rw e (has_user-filter us u.id out, filter-IdsDiffer us d)
    | inr e ↦ rw e (filter-IdsDiffer us d)
  ]

resolve_session-users :
    (hash_token : Text → Text) (cookie : Option Text) (now : ℕ) (a : Accounts)
    → (resolve_session hash_token cookie now a).1.users ≡ a.users
unfolding resolve_session
resolve_session-users hash_token none now a = refl
resolve_session-users hash_token (some token) now a = ground arith

create_user_inv :
    (o : CreateUserOptions) (id : ℕ) (a a' : Accounts)
    → accounts_of (create_user o id a) ≡ ok a'
    → (u : User) × (u.id ≡ id) × (a'.users ≡ a.users ++ u ∷ [])
unfolding create_user
create_user_inv o id a a' h = (
  new_user id (normal_email o.email) (trim o.name) o.password_hash (get_or_else o.role user),
  refl,
  ground arith,
)

delete_user_users :
    (id current : ℕ) (a a' : Accounts)
    → delete_user id current a ≡ ok a'
    → a'.users ≡ filter (λ u. not (u.id == id)) a.users
unfolding delete_user remove_user
delete_user_users id current a a' h = ground arith

appended-IsGoverned :
    (us : List User) (u : User)
    → has_user us u.id ≡ false
    → IsGoverned us
    → IsGoverned (us ++ u ∷ [])
appended-IsGoverned us u new g = record {
  ids = append-IdsDiffer us u new g.ids;
  governed = omega (arith, g.governed, count-append is_active_admin us (u ∷ []));
}

module _ (hash_token : Text → Text) where
  -- The requests that do not touch the accounts of users.
  perform-users :
      (who : SessionUser) (now : ℕ) (r : AdminRequest) (a a' : Accounts)
      → leaves_users r ≡ true
      → perform hash_token who now r a ≡ ok a'
      → a'.users ≡ a.users
  unfolding perform revoke_sessions create_password_reset create_invite revoke_invite
  perform-users who now (create_account o id) a a' l h = absurd (cc)
  perform-users who now (update_account id o) a a' l h = absurd (cc)
  perform-users who now (delete_account id) a a' l h = absurd (cc)
  perform-users who now (end_sessions id) a a' l h = ground arith
  perform-users who now (reset_link user_id hours id token) a a' l h = ground arith
  perform-users who now (new_invite role days remark id code) a a' l h = ground arith
  perform-users who now (drop_invite id) a a' l h = ground arith

  perform-IsGoverned :
      (who : SessionUser) (now : ℕ) (r : AdminRequest) (a a' : Accounts)
      → IsNew r a
      → IsGoverned a.users
      → perform hash_token who now r a ≡ ok a'
      → IsGoverned a'.users
  unfolding perform change_user
  perform-IsGoverned who now (create_account o id) a a' n g h =
      let (u, key, e) = create_user_inv o id a a' h in
      subst IsGoverned (sym e)
        (appended-IsGoverned a.users u (subst (λ i. has_user a.users i ≡ false) (sym key) n) g)
  perform-IsGoverned who now (update_account id o) a a' n g h =
      let (u, e, r, x, changed) = update_user_inv id o who.id a a' h in
      record {
        ids =
            subst IdsDiffer (sym changed)
              (update-IdsDiffer id (change_user o) (λ v. refl) a.users g.ids);
        governed = update_user-admins id o who.id a a' g.ids g.governed h;
      }
  perform-IsGoverned who now (delete_account id) a a' n g h = record {
    ids =
        subst IdsDiffer (sym (delete_user_users id who.id a a' h))
          (filter-IdsDiffer (λ v. not (v.id == id)) a.users g.ids);
    governed = delete_user-admins id who.id a a' g.ids g.governed h;
  }
  perform-IsGoverned who now (end_sessions id) a a' n g h =
      subst IsGoverned (sym (perform-users who now (end_sessions id) a a' refl h)) g
  perform-IsGoverned who now (reset_link user_id hours id token) a a' n g h =
      subst IsGoverned (sym (perform-users who now (reset_link user_id hours id token) a a' refl h))
        g
  perform-IsGoverned who now (new_invite role days remark id code) a a' n g h =
      subst IsGoverned
        (sym (perform-users who now (new_invite role days remark id code) a a' refl h)) g
  perform-IsGoverned who now (drop_invite id) a a' n g h =
      subst IsGoverned (sym (perform-users who now (drop_invite id) a a' refl h)) g

  -- The keys are new at the time of each request.
  abbrev pub AllNew : List (Request × ℕ × AdminRequest) → Accounts → Type 0
  AllNew [] a = Unit
  AllNew ((request, now, r) ∷ rs) a =
      IsNew r (attach_user hash_token request now a).1
      × AllNew rs (answered hash_token request now r a)

  answered-IsGoverned :
      (caller : Option SessionUser) (now : ℕ) (r : AdminRequest) (a : Accounts)
      → IsNew r a
      → IsGoverned a.users
      → IsGoverned (settled a (handle_admin hash_token caller now r a)).users
  unfolding handle_admin require_admin
  answered-IsGoverned caller now r a n g = by_result (handle_admin hash_token caller now r a) refl
    where
      by_result :
          (o : Result Accounts)
          → handle_admin hash_token caller now r a ≡ o
          → IsGoverned (settled a o).users
      by_result (err e) h = g
      by_result (ok a') h = by_caller caller h
        where
          by_caller :
              (c : Option SessionUser)
              → handle_admin hash_token c now r a ≡ ok a'
              → IsGoverned a'.users
          by_caller none k = absurd (cc)
          by_caller (some who) k = perform-IsGoverned who now r a a' n g (ground arith)

  -- However many requests administrators make, one of them can still sign in afterwards, if one
  -- could at first: no sequence of creations, changes and deletions of accounts, one at a time,
  -- locks all of them out.
  pub serve_admin-IsGoverned :
      (rs : List (Request × ℕ × AdminRequest)) (a : Accounts)
      → AllNew rs a
      → IsGoverned a.users
      → IsGoverned (serve_admin hash_token rs a).users
  unfolding serve_admin answered attach_user
  serve_admin-IsGoverned [] a n g = g
  serve_admin-IsGoverned ((request, now, r) ∷ rs) a (n, ns) g =
      let (caller, attached) = attach_user hash_token request now a in
      serve_admin-IsGoverned rs (answered hash_token request now r a) ns (
        answered-IsGoverned caller now r attached n
          (subst IsGoverned (sym (resolve_session-users hash_token request.cookie now a)) g))
