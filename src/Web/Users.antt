-- ===== src/Web/Users.antt =====
-- packages/web/src/pages/admin/Users.tsx: the buttons in the table of users. `busy` is whether a change
-- is under way; the confirmation of a deletion is taken as given.
pub mod Laws
mod Tests
use circleftp_jellyfin.Base.{
  ℕ, List, Option, none, some, Bool, true, false, ◌&&◌, ◌||◌, not, count, if◌then◌else◌, ◌==◌, leb,
}
use circleftp_jellyfin.Base.Text.{Text}
use circleftp_jellyfin.Auth.Model.{Role, admin, user, is_admin}
use circleftp_jellyfin.Auth.Admin.{UpdateUserOptions}
use circleftp_jellyfin.Auth.Admin.Listing.{AdminUserDto}
use circleftp_jellyfin.Routes.Admin.{
  AdminRequest, update_account, delete_account, end_sessions, reset_link,
}

-- A button with the request that it sends.
pub record Button : Type 0 where
  pub is_disabled : Bool
  pub request : AdminRequest

unfoldable pub admin_count : List AdminUserDto → ℕ
admin_count rows = count (λ r. is_admin r.role && not r.disabled) rows

unfoldable pub is_only_admin : List AdminUserDto → AdminUserDto → Bool
unfolding admin_count
is_only_admin rows r = is_admin r.role && not r.disabled && leb (admin_count rows) 1

abbrev pub toggled_role : Role → UpdateUserOptions
toggled_role role = record {
  name = none;
  role = some (if is_admin role then user else admin);
  disabled = none;
}

abbrev pub toggled_disabled : Bool → UpdateUserOptions
toggled_disabled disabled = record { name = none; role = none; disabled = some (not disabled) }

module _ (busy : Bool) (rows : List AdminUserDto) (r : AdminUserDto) where
  unfoldable pub role_button : Button
  unfolding is_only_admin
  role_button = record {
    is_disabled = busy || is_only_admin rows r;
    request = update_account r.id (toggled_role r.role);
  }

  unfoldable pub disable_button : Button
  unfolding is_only_admin
  disable_button = record {
    is_disabled = busy || r.is_self || is_only_admin rows r;
    request = update_account r.id (toggled_disabled r.disabled);
  }

  unfoldable pub delete_button : Button
  unfolding is_only_admin
  delete_button = record {
    is_disabled = busy || r.is_self || is_only_admin rows r;
    request = delete_account r.id;
  }

  unfoldable pub sign_out_button : Button
  sign_out_button = record {
    is_disabled = busy || r.session_count == 0;
    request = end_sessions r.id;
  }

  -- The key and the token of the link are the server's.
  unfoldable pub reset_button : ℕ → Text → Button
  reset_button id token = record { is_disabled = busy; request = reset_link r.id 24 id token }
