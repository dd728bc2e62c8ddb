-- ===== src/Auth/Admin/Lockout.antt =====
-- The rule of auth/admin.ts that an administrator who can sign in is always left.
use circleftp_jellyfin.Base.{
  ℕ, ◌+◌, ◌≤◌, ◌<◌, ◌≡◌, refl, List, [], ◌∷◌, Option, none, some, Bool, true, false, ◌&&◌, not,
  arith, any, count, filter, if◌then◌else◌, ◌==◌, ==_iff, Bool-cases, Option-cases, inl, inr,
  get_or_else, subst,
}
use circleftp_jellyfin.Base.Result.{ok}
use circleftp_jellyfin.Auth.Model.{
  Role, admin, user, is_admin, User, Accounts, find_user, update_users, remove_user,
}
use circleftp_jellyfin.Auth.Admin.{
  is_active_admin, active_admin_count, is_last_admin, UpdateUserOptions, is_demotion, is_disabling,
  change_user, check_update, apply_update, update_user, delete_user,
}

-- The primary key of `users`.
abbrev pub IdsDiffer : List User → Type 0
IdsDiffer [] = Unit
IdsDiffer (u ∷ us) = (any (λ v. v.id == u.id) us ≡ false) × IdsDiffer us

abbrev pub others : ℕ → List User → ℕ
others id = count (λ u. is_active_admin u && not (u.id == id))

abbrev pub admins : List User → ℕ
admins = count is_active_admin

absent-others :
    (id : ℕ) (us : List User) → any (λ v. v.id == id) us ≡ false → others id us ≡ admins us
absent-others id [] h = refl
absent-others id (u ∷ us) h = ground (arith, absent-others id us)

-- Beside the others there is the user itself.
pub others-split :
    (id : ℕ) (us : List User) (u : User)
    → IdsDiffer us
    → find_user id us ≡ some u
    → admins us ≡ others id us + (if is_active_admin u then 1 else 0)
others-split id [] u d e = cc
others-split id (v ∷ us) u (out, d) e = elim (Bool-cases (v.id == id)) [
  | inl hit ↦
      let this : v ≡ u = ground arith in
      let absent : any (λ w. w.id == id) us ≡ false =
        subst (λ k. any (λ w. w.id == k) us ≡ false) ((==_iff _ _).0 hit) out in
      ground (arith, absent-others id us absent)
  | inr miss ↦ ground (arith, others-split id us u d)
]

update-others :
    (id : ℕ) (f : User → User) (us : List User) → others id us ≤ admins (update_users id f us)
update-others id f [] = omega arith
update-others id f (u ∷ us) = ground (arith, update-others id f us)

update-admins :
    (id : ℕ) (f : User → User) (us : List User)
    → ((u : User) → is_active_admin u ≡ true → is_active_admin (f u) ≡ true)
    → admins us ≤ admins (update_users id f us)
update-admins id f [] h = omega arith
update-admins id f (u ∷ us) h = ground (arith, update-admins id f us h, h u)

filter-others :
    (id : ℕ) (us : List User) → admins (filter (λ u. not (u.id == id)) us) ≡ others id us
filter-others id [] = refl
filter-others id (u ∷ us) = ground (arith, filter-others id us)

-- A user for whom the check passes is not needed.
not_last :
    (id : ℕ) (us : List User) (u : User)
    → IdsDiffer us
    → find_user id us ≡ some u
    → is_last_admin id us ≡ false
    → 0 < admins us
    → 0 < others id us
unfolding is_last_admin active_admin_count
not_last id us u d e h p = ground (arith, others-split id us u d e)

change_user-admin :
    (o : UpdateUserOptions) (u : User)
    → is_demotion o.role ≡ false
    → is_disabling o.disabled ≡ false
    → is_active_admin u ≡ true
    → is_active_admin (change_user o u) ≡ true
unfolding change_user
change_user-admin o u a b h = by_cases o.role o.disabled a b
  where
    by_cases :
        (r : Option Role) (x : Option Bool)
        → is_demotion r ≡ false
        → is_disabling x ≡ false
        → (is_admin (get_or_else r u.role) && not (get_or_else x u.disabled)) ≡ true
    by_cases none none a b = h
    by_cases none (some true) a b = cc
    by_cases none (some false) a b = ground arith
    by_cases (some user) x a b = cc
    by_cases (some admin) none a b = ground arith
    by_cases (some admin) (some true) a b = cc
    by_cases (some admin) (some false) a b = ground arith

-- What an accepted change has passed.
pub update_user_inv :
    (id : ℕ) (o : UpdateUserOptions) (current : ℕ) (a a' : Accounts)
    → update_user id o current a ≡ ok a'
    → (u : User) × (find_user id a.users ≡ some u)
      × ((is_demotion o.role && is_admin u.role && is_last_admin id a.users) ≡ false)
      × ((is_disabling o.disabled && is_last_admin id a.users) ≡ false)
      × (a'.users ≡ update_users id (change_user o) a.users)
unfolding update_user check_update apply_update
update_user_inv id o current a a' h = elim (Option-cases (find_user id a.users)) [
  | inl e ↦ ground arith
  | inr (u, e) ↦ (u, e, ground arith, ground arith, ground arith)
]

-- Where it is the last one, neither a demotion nor a disabling has passed.
last_kept :
    (id : ℕ) (o : UpdateUserOptions) (us : List User) (u : User)
    → find_user id us ≡ some u
    → is_last_admin id us ≡ true
    → (is_demotion o.role && is_admin u.role && is_last_admin id us) ≡ false
    → (is_disabling o.disabled && is_last_admin id us) ≡ false
    → (is_demotion o.role ≡ false) × (is_disabling o.disabled ≡ false)
unfolding is_last_admin
last_kept id o us u e last r x = (ground arith, ground arith)

-- As long as there is an administrator who can sign in, every change of an account that is accepted
-- leaves one, whoever makes it. The keys of the users differ.
pub update_user-admins :
    (id : ℕ) (o : UpdateUserOptions) (current : ℕ) (a a' : Accounts)
    → IdsDiffer a.users
    → 0 < admins a.users
    → update_user id o current a ≡ ok a'
    → 0 < admins a'.users
update_user-admins id o current a a' d p h =
    let (u, e, r, x, changed) = update_user_inv id o current a a' h in
    elim (Bool-cases (is_last_admin id a.users)) [
      | inl last ↦
          let (role, enabled) = last_kept id o a.users u e last r x in
          rw changed (
            omega (
              arith,
              update-admins id (change_user o) a.users (λ v. change_user-admin o v role enabled),
            ))
      | inr free ↦ rw changed (
          omega (arith, not_last id a.users u d e free p, update-others id (change_user o) a.users))
    ]

-- As long as there is an administrator who can sign in, every deletion of an account that is
-- accepted leaves one. The keys of the users differ.
pub delete_user-admins :
    (id current : ℕ) (a a' : Accounts)
    → IdsDiffer a.users
    → 0 < admins a.users
    → delete_user id current a ≡ ok a'
    → 0 < admins a'.users
unfolding delete_user remove_user
delete_user-admins id current a a' d p h = elim (Option-cases (find_user id a.users)) [
  | inl e ↦ ground arith
  | inr (u, e) ↦ ground (arith, not_last id a.users u d e, filter-others id a.users)
]
