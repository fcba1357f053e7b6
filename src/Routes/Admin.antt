-- ===== src/Routes/Admin.antt =====
-- Flask app/tenant-saas-app-fixed/tenant-saas-app/routes/admin.py: the users of the
-- administrator's tenant. The texts that `uuid` and the generator of passwords give are arguments.
use Prim.Native.String
use secure_multi_tenant_saas.Prelude.{
  ℕ, zero, suc, String, Bool, false, not, Option, none, some, List, [], ◌∷◌, ◌++◌, ◌||◌, ◌==◌,
  nonempty, truthy, get_or, if◌then◌else◌,
}
use secure_multi_tenant_saas.Prelude.Text.{strip, is_char}
use secure_multi_tenant_saas.Prelude.Numeral.{digits}
use secure_multi_tenant_saas.Prelude.Dict.{get}
use secure_multi_tenant_saas.Prelude.Exec.{Error, pure, gets, try_except, ◌>>=◌, ◌>>◌}
use secure_multi_tenant_saas.Config.{Config}
use secure_multi_tenant_saas.Web.{Request, redirect, page, flash}
use secure_multi_tenant_saas.Cognito.UserPool.{
  create_cognito_user, delete_cognito_user, set_user_enabled,
}
use secure_multi_tenant_saas.Routes.{
  Answer, Backend, users_table, new_user, on_users, on_pool, with_g, flash_all, any_error,
}
use secure_multi_tenant_saas.Routes.Users.{form_text, not_email}

-- `max(1, n)` of an integer text; a negative number is none here, and counts as one.
abbrev at_least_one : Option ℕ → ℕ
at_least_one none = 1
at_least_one (some zero) = 1
at_least_one (some (suc n)) = suc n

signed_digits : String → Option ℕ
unfolding digits
signed_digits String.[] = none
signed_digits (String.◌∷◌ c s) =
    let unsigned = digits 0 false (String.◌∷◌ c s) in
    let positive = digits 0 false s in if is_char b'+' c then positive else unsigned

-- `max(1, request.args.get("page", 1, type=int))`: what is no number counts as one too.
unfoldable pub page_number : Request → ℕ
unfolding signed_digits
page_number request = at_least_one (signed_digits (strip (get_or (get request.args "page") "1")))

abbrev error_if : Bool → String → List String
error_if b message = if b then message ∷ [] else []

unfoldable pub new_user_errors : String → String → String → List String
new_user_errors username email role =
    error_if (not (truthy username)) "Username is required."
    ++ (error_if (not_email email) "Please enter a valid email address."
        ++ error_if (not (role == "admin" || role == "user")) "Role must be either admin or user.")

module _ {X S Bytes : Type 0} (Bill : Type 0) (config : Config) (backend : Backend X S Bytes) where
  unfoldable pub list_page : String → Request → Answer X S Bill
  unfolding page_number
  list_page template request = with_g λ g.
      let search = strip (get_or (get request.args "q") "") in
      on_users (backend.users.list_users g.tenant search (page_number request) 8) >>= λ data_page.
      gets (λ w. w.session.identity) >>= λ identity.
      pure (page template (users_table g.tenant search data_page identity))

  unfoldable pub dashboard : Request → Answer X S Bill
  unfolding list_page
  dashboard request = list_page "admin_dashboard.html" request

  unfoldable pub manage_users_page : Request → Answer X S Bill
  unfolding list_page
  manage_users_page request = list_page "manage_users.html" request

  abbrev back_to_users : Answer X S Bill
  back_to_users = pure (redirect "admin.manage_users_page")

  -- `except Exception`, with its message.
  abbrev failed : String → Error → Answer X S Bill
  failed message e = flash message "danger" >> back_to_users

  -- The `try` block of `create_user`.
  unfoldable pub add_user :
      (sub temp_password tenant user_id username email role : String) → Answer X S Bill
  add_user sub temp_password tenant user_id username email role =
      on_pool
        (create_cognito_user config backend.client sub temp_password username email tenant role)
      >>= λ created.
          on_users (backend.users.create_user_record tenant user_id username email role)
          >> gets (λ w. w.session.identity)
          >>= λ identity. pure (
              page "create_user.html"
                (new_user username email role user_id tenant created.temp_password identity))

  unfoldable pub create_user : (sub temp_password fresh_id : String) → Request → Answer X S Bill
  unfolding new_user_errors add_user
  create_user sub temp_password fresh_id request = with_g λ g.
      let username = strip (form_text request "username") in
      let email = strip (form_text request "email") in
      let role = strip (get_or (get request.form "role") "user") in
      let given_id = strip (form_text request "user_id") in
      let user_id = if truthy given_id then given_id else fresh_id in
      let errors = new_user_errors username email role in
      if nonempty errors
      then flash_all errors >> back_to_users
      else try_except (add_user sub temp_password g.tenant user_id username email role) any_error
          (failed "We couldn't create that user. Please try again.")

  -- `request.form.get(key) == "true"`
  abbrev pub is_set : Request → String → Bool
  is_set request key = get_or (get request.form key) "" == "true"

  unfoldable pub delete_user : (user_id : String) → Request → Answer X S Bill
  delete_user user_id request = with_g λ g.
      let username = get_or (get request.form "username") user_id in
      try_except
        (on_pool (delete_cognito_user config backend.client username)
          >> on_users
              (backend.users.delete_user_record g.tenant user_id (is_set request "hard_delete"))
          >> flash (String.◌++◌ "User '" (String.◌++◌ username "' was successfully removed."))
              "success"
          >> back_to_users)
        any_error (failed "We couldn't remove that user. Please try again.")

  unfoldable pub toggle_user : (user_id : String) → Request → Answer X S Bill
  toggle_user user_id request = with_g λ g.
      let enable = is_set request "enable" in
      let username = get_or (get request.form "username") user_id in
      try_except
        (on_pool (set_user_enabled config backend.client username enable)
          >> on_users (backend.users.set_user_enabled g.tenant user_id enable)
          >> flash
              (String.◌++◌ "User '" (
                String.◌++◌ username
                  (if enable then "' has been enabled." else "' has been disabled.")))
              "success"
          >> back_to_users)
        any_error (failed "We couldn't update that user's status. Please try again.")
