-- ===== src/Web/Users/Laws.antt =====
-- What the table of users in pages/admin/Users.tsx offers, against what auth/admin.ts accepts.
use circleftp_jellyfin.Base.{
  ℕ, ◌+◌, ◌≡◌, refl, sym, ap, ◌∙◌, List, [], ◌∷◌, some, true, false, ◌||◌, not, arith, map,
  count-append, filter, ◌==◌,
}
use circleftp_jellyfin.Base.Text.{Text}
use circleftp_jellyfin.Base.Result.{is_ok}
use circleftp_jellyfin.Auth.Model.{is_admin, User, Session, Accounts, find_user}
use circleftp_jellyfin.Auth.Session.{SessionUser}
use circleftp_jellyfin.Auth.Admin.{
  is_active_admin, is_last_admin, active_admin_count, check_update, update_user, delete_user,
}
use circleftp_jellyfin.Auth.Admin.Lockout.{IdsDiffer, admins, others-split}
use circleftp_jellyfin.Auth.Admin.Listing.{to_admin_user_dto, by_role, list_users}
use circleftp_jellyfin.Routes.Admin.{perform}
use circleftp_jellyfin.Web.Users.{
  Button, admin_count, is_only_admin, toggled_role, toggled_disabled, role_button, disable_button,
  delete_button,
}

count-map :
    (ss : List Session) (current : ℕ) (us : List User)
    → admin_count (map (to_admin_user_dto ss current) us) ≡ admins us
unfolding admin_count to_admin_user_dto
count-map ss current [] = refl
count-map ss current (u ∷ us) = ground (arith, count-map ss current us)

admins-split :
    (us : List User)
    → admins (filter (λ u. is_admin u.role) us) + admins (filter (λ u. not (is_admin u.role)) us)
      ≡ admins us
admins-split [] = refl
admins-split (u ∷ us) = ground (arith, admins-split us)

-- The page counts the administrators of the table.
pub admin_count-list_users :
    (current : ℕ) (a : Accounts) → admin_count (list_users current a) ≡ admins a.users
unfolding list_users by_role
admin_count-list_users current a =
    count-map a.sessions current (by_role a.users)
    ∙ count-append is_active_admin (filter (λ u. is_admin u.role) a.users)
        (filter (λ u. not (is_admin u.role)) a.users)
    ∙ admins-split a.users

module _ (current : ℕ) (a : Accounts) (u : User) (ids : IdsDiffer a.users)
    (found : find_user u.id a.users ≡ some u) where
  -- The page greys out the last administrator exactly if the server protects it.
  only-last :
      is_only_admin (list_users current a) (to_admin_user_dto a.sessions current u)
      ≡ is_last_admin u.id a.users
  unfolding is_only_admin is_last_admin active_admin_count to_admin_user_dto
  only-last =
      ground (arith, admin_count-list_users current a, others-split u.id a.users u ids found)

  update_user-role :
      is_ok (update_user u.id (toggled_role u.role) current a) ≡ not (is_last_admin u.id a.users)
  unfolding update_user check_update is_last_admin
  update_user-role = ground (arith, found)

  update_user-disabled :
      ((u.id == current) ≡ true → u.disabled ≡ false)
      → is_ok (update_user u.id (toggled_disabled u.disabled) current a)
        ≡ not (u.id == current || is_last_admin u.id a.users)
  unfolding update_user check_update is_last_admin
  update_user-disabled signed_in = ground (arith, found, signed_in)

  delete_user_lem :
      is_ok (delete_user u.id current a) ≡ not (u.id == current || is_last_admin u.id a.users)
  unfolding delete_user
  delete_user_lem = ground (arith, found)

-- A button and what becomes of its request.
abbrev pub Agrees : (Text → Text) → SessionUser → ℕ → Accounts → Button → Type 0
Agrees hash_token who now a b = is_ok (perform hash_token who now b.request a) ≡ not b.is_disabled

-- In the table of users that the server has listed for an administrator who is signed in, the
-- buttons that change the role of an account, that disable or enable it and that delete it are
-- disabled exactly if the server would refuse their request.
pub user_buttons-Agrees :
    (hash_token : Text → Text) (who : SessionUser) (now : ℕ) (a : Accounts) (u : User)
    → IdsDiffer a.users
    → find_user u.id a.users ≡ some u
    → ((u.id == who.id) ≡ true → u.disabled ≡ false)
    → let rows = list_users who.id a in
      let row = to_admin_user_dto a.sessions who.id u in
      Agrees hash_token who now a (role_button false rows row)
      × Agrees hash_token who now a (disable_button false rows row)
      × Agrees hash_token who now a (delete_button false rows row)
unfolding perform role_button disable_button delete_button to_admin_user_dto
user_buttons-Agrees hash_token who now a u ids found signed_in =
    let last = only-last who.id a u ids found in
    (
      update_user-role who.id a u ids found ∙ ap not (sym last),
      update_user-disabled who.id a u ids found signed_in
          ∙ ap (λ b. not (u.id == who.id || b)) (sym last),
      delete_user_lem who.id a u ids found ∙ ap (λ b. not (u.id == who.id || b)) (sym last),
    )
