-- ===== src/Auth/Changes/Kept.antt =====
-- What a change of the accounts that is accepted leaves as it was.
use circleftp_jellyfin.Auth.Users.{Registration, redeem_invite, find_invite}
use circleftp_jellyfin.Auth.Users.Laws.{typed_code}
use circleftp_jellyfin.Base.{
  ℕ, ◌≡◌, refl, ◌⊎◌, List, [], ◌∷◌, ◌++◌, Option, Bool, false, ◌||◌, not, arith, any, map, filter,
  find, ◌&&◌, is_none, ◌==◌, Option-cases, inl, inr,
}
use circleftp_jellyfin.Base.Text.{Text}
use circleftp_jellyfin.Base.Result.{ApiError, Result, ok, err}
use circleftp_jellyfin.Auth.Model.{User, PasswordReset, Accounts, remove_user, find_user}
use circleftp_jellyfin.Auth.Users.{CreateUserOptions, create_user}
use circleftp_jellyfin.Auth.Admin.{
  UpdateUserOptions, check_update, update_user, apply_update, delete_user, revoke_invite,
}
use circleftp_jellyfin.Auth.Reset.{create_password_reset, redeem_password_reset, find_reset}
use circleftp_jellyfin.Auth.Changes.{or_before, or_before_with}

pub Result-cases {ℓ} :
    {A : Type ℓ} (o : Result A) → ((a : A) × (o ≡ ok a)) ⊎ ((e : ApiError) × (o ≡ err e))
Result-cases (ok a) = inl (a, refl)
Result-cases (err e) = inr (e, refl)

pub any-append {ℓ} :
    {A : Type ℓ} (p : A → Bool) (xs ys : List A) → any p (xs ++ ys) ≡ (any p xs || any p ys)
any-append p [] ys = refl
any-append p (x ∷ xs) ys = ground (arith, any-append p xs ys)

pub any-filter {ℓ} :
    {A : Type ℓ} (p q : A → Bool) (xs : List A) → any p xs ≡ false → any p (filter q xs) ≡ false
any-filter p q [] h = refl
any-filter p q (x ∷ xs) h = ground (arith, any-filter p q xs)

pub any-map {ℓ} :
    {A : Type ℓ} (p : A → Bool) (f : A → A)
    → ((x : A) → p x ≡ false → p (f x) ≡ false)
    → (xs : List A) → any p xs ≡ false
    → any p (map f xs) ≡ false
any-map p f k [] h = refl
any-map p f k (x ∷ xs) h = ground (arith, any-map p f k xs, k x)

-- A property of the accounts that a change keeps where it is accepted.
module _ (P : Accounts → Type 0) (a : Accounts) (before : P a) where
  pub kept : (o : Result Accounts) → ((b : Accounts) → o ≡ ok b → P b) → P (or_before a o)
  kept (ok b) h = h b refl
  kept (err e) h = before

  pub kept_with {ℓ} :
      {B : Type ℓ} (o : Result (Accounts × B))
      → ((b : Accounts) (x : B) → o ≡ ok (b, x) → P b)
      → P (or_before_with a o)
  kept_with (ok (b, x)) h = h b x refl
  kept_with (err e) h = before

pub update_user-rest :
    (id : ℕ) (o : UpdateUserOptions) (current : ℕ) (a b : Accounts)
    → update_user id o current a ≡ ok b
    → (b.invites ≡ a.invites) × (b.resets ≡ a.resets)
unfolding update_user apply_update
update_user-rest id o current a b h = elim (Result-cases (check_update id o current a)) [
  | inl (x, e) ↦ (ground (arith, e), ground (arith, e))
  | inr (x, e) ↦ (ground (arith, e), ground (arith, e))
]

pub create_user-rest :
    (o : CreateUserOptions) (id : ℕ) (a b : Accounts) (u : User)
    → create_user o id a ≡ ok (b, u)
    → (b.invites ≡ a.invites) × (b.resets ≡ a.resets)
unfolding create_user
create_user-rest o id a b u h = (ground arith, ground arith)

pub delete_user_inv :
    (id current : ℕ) (a b : Accounts) → delete_user id current a ≡ ok b → b ≡ remove_user id a
unfolding delete_user
delete_user_inv id current a b h = elim (Option-cases (find_user id a.users)) [
  | inl e ↦ ground arith
  | inr (u, e) ↦ ground arith
]

pub revoke_invite_inv :
    (id : ℕ) (a b : Accounts)
    → revoke_invite id a ≡ ok b
    → b ≡ record a { invites = filter (λ i. not (i.id == id)) a.invites }
unfolding revoke_invite
revoke_invite_inv id a b h = elim (Option-cases (find (λ i. i.id == id) a.invites)) [
  | inl e ↦ ground arith
  | inr (i, e) ↦ ground arith
]

pub create_reset-invites :
    (hash_token : Text → Text) (user_id : ℕ) (by : Option ℕ) (hours id : ℕ) (token : Text) (now : ℕ)
    (a b : Accounts) (r : PasswordReset)
    → create_password_reset hash_token user_id by hours id token now a ≡ ok (b, r)
    → b.invites ≡ a.invites
unfolding create_password_reset
create_reset-invites hash_token user_id by hours id token now a b r h =
    elim (Option-cases (find_user user_id a.users)) [
      | inl e ↦ ground arith
      | inr (u, e) ↦ ground arith
    ]

pub redeem_reset-invites :
    (hash_token : Text → Text) (token hash : Text) (now : ℕ) (a b : Accounts) (id : ℕ)
    → redeem_password_reset hash_token token hash now a ≡ ok (b, id)
    → b.invites ≡ a.invites
unfolding redeem_password_reset
redeem_reset-invites hash_token token hash now a b id h =
    elim (Option-cases (find_reset hash_token token a.resets)) [
      | inl e ↦ ground arith
      | inr (r, e) ↦ elim (Option-cases (find_user r.user_id a.users)) [
        | inl f ↦ ground arith
        | inr (u, f) ↦ ground arith
      ]
    ]

pub redeem_invite-resets :
    (r : Registration) (id now : ℕ) (a b : Accounts) (u : User)
    → redeem_invite r id now a ≡ ok (b, u)
    → b.resets ≡ a.resets
unfolding redeem_invite
redeem_invite-resets r id now a b u h = elim (Option-cases (find_invite (typed_code r) a.invites)) [
  | inl e ↦ ground arith
  | inr (i, e) ↦ ground arith
]

-- The links left after a new one has been made are some of those before, and the new one.
pub create_reset_inv :
    (hash_token : Text → Text) (user_id : ℕ) (by : Option ℕ) (hours id : ℕ) (token : Text) (now : ℕ)
    (a b : Accounts) (r : PasswordReset)
    → create_password_reset hash_token user_id by hours id token now a ≡ ok (b, r)
    → (b.resets ≡ filter (λ x. not (x.user_id == user_id && is_none x.used_at)) a.resets ++ r ∷ [])
      × (r.token_hash ≡ hash_token token)
unfolding create_password_reset
create_reset_inv hash_token user_id by hours id token now a b r h =
    elim (Option-cases (find_user user_id a.users)) [
      | inl e ↦ ground arith
      | inr (u, e) ↦ (ground arith, ground arith)
    ]
