-- ===== src/Auth/Admin/Race.antt =====
-- Two requests of auth/admin.ts at a time: each checks before the other writes.
use circleftp_jellyfin.Base.{
  ℕ, ◌≤◌, ◌<◌, ◌≡◌, ap, ◌∙◌, List, [], ◌∷◌, none, some, true, false, arith, ◌==◌, ==_iff,
  Bool-cases, inl, inr,
}
use circleftp_jellyfin.Base.Result.{ok}
use circleftp_jellyfin.Auth.Model.{user, User, Accounts, find_user, update_users}
use circleftp_jellyfin.Auth.Admin.{
  is_active_admin, active_admin_count, is_last_admin, UpdateUserOptions, change_user, check_update,
  apply_update,
}
use circleftp_jellyfin.Auth.Admin.Lockout.{IdsDiffer, admins, others-split}

abbrev pub demotion : UpdateUserOptions
demotion = record { name = none; role = some user; disabled = none }

demoted-le :
    (id : ℕ) (us : List User) → admins (update_users id (change_user demotion) us) ≤ admins us
unfolding change_user
demoted-le id [] = omega arith
demoted-le id (u ∷ us) = ground (arith, demoted-le id us)

-- The demotion of an administrator takes one away.
demoted-admins :
    (id : ℕ) (us : List User) (u : User)
    → find_user id us ≡ some u
    → is_active_admin u ≡ true
    → admins (update_users id (change_user demotion) us) < admins us
unfolding change_user
demoted-admins id [] u e p = cc
demoted-admins id (x ∷ us) u e p = elim (Bool-cases (x.id == id)) [
  | inl hit ↦
      let this : x ≡ u = ground arith in
      let active : is_active_admin x ≡ true = ap is_active_admin this ∙ p in
      ground (arith, demoted-le id us)
  | inr miss ↦ ground (arith, demoted-admins id us u (rw miss at e) p)
]

-- The demotion of another account leaves the row as it was.
find-other :
    (id other : ℕ) (us : List User) (u : User)
    → (id == other) ≡ false
    → find_user id us ≡ some u
    → find_user id (update_users other (change_user demotion) us) ≡ some u
unfolding change_user
find-other id other [] u n e = cc
find-other id other (x ∷ us) u n e = elim (Bool-cases (x.id == other)) [
  | inl hit ↦
      let miss : (x.id == id) ≡ false = ground (arith, ==_iff x.id id, ==_iff id other) in
      rw (hit, miss) (find-other id other us u n (rw miss at e))
  | inr apart ↦ elim (Bool-cases (x.id == id)) [
    | inl found ↦ rw (apart, found) (rw found at e)
    | inr miss ↦ rw (apart, miss) (find-other id other us u n (rw miss at e))
  ]
]

-- An administrator beside one other is not the last.
not_last_of_two :
    (id : ℕ) (us : List User) (u : User)
    → IdsDiffer us
    → find_user id us ≡ some u
    → admins us ≡ 2
    → is_last_admin id us ≡ false
unfolding is_last_admin active_admin_count
not_last_of_two id us u d e two = ground (arith, others-split id us u d e)

demotion-ok :
    (id current : ℕ) (a : Accounts) (u : User)
    → find_user id a.users ≡ some u
    → is_last_admin id a.users ≡ false
    → check_update id demotion current a ≡ ok tt
unfolding check_update
demotion-ok id current a u e h = ground arith

-- Where two accounts are the only administrators of a table whose keys differ, the demotion of each
-- passes its checks before the other is written, and after both writes no administrator is left.
pub check_update-race :
    (u v : User) (id key current other : ℕ) (a : Accounts)
    → IdsDiffer a.users
    → find_user id a.users ≡ some u
    → find_user key a.users ≡ some v
    → (key == id) ≡ false
    → is_active_admin u ≡ true
    → is_active_admin v ≡ true
    → admins a.users ≡ 2
    → (check_update id demotion current a ≡ ok tt)
      × (check_update key demotion other a ≡ ok tt)
      × (admins (apply_update key demotion (apply_update id demotion a)).users ≡ 0)
unfolding apply_update
check_update-race u v id key current other a d found_u found_v n p q two =
    let once = update_users id (change_user demotion) a.users in
    let left : find_user key once ≡ some v = find-other key id a.users v n found_v in
    (
      demotion-ok id current a u found_u (not_last_of_two id a.users u d found_u two),
      demotion-ok key other a v found_v (not_last_of_two key a.users v d found_v two),
      omega (arith, demoted-admins id a.users u found_u p, demoted-admins key once v left q, two),
    )
