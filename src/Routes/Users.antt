-- ===== src/Routes/Users.antt =====
-- Flask app/tenant-saas-app-fixed/tenant-saas-app/routes/users.py: a person's profile and password.
pub mod Saved
use secure_multi_tenant_saas.Prelude.{
  ℕ, zero, suc, ◌+◌, ◌*◌, ◌/◌, ◌-◌, String, Bool, true, false, not, Option, none, some, List, [],
  ◌∷◌, ◌++◌, ◌&&◌, ◌||◌, ◌==◌, nonempty, truthy, truthy?, or_empty, or_else, get_or, is_some,
  if◌then◌else◌,
}
use secure_multi_tenant_saas.Prelude.Text.{
  strip, codes, is_infix, has_char, startswith, remove_text,
}
use secure_multi_tenant_saas.Prelude.Dict.{Dict, get}
use secure_multi_tenant_saas.Prelude.Exec.{
  Exec, Result, ok, err, Error, value_error, build_error, pure, raise, lift, gets, try_except,
  continue, ◌>>=◌, ◌>>◌,
}
use secure_multi_tenant_saas.Config.{Config}
use secure_multi_tenant_saas.Web.{
  Identity, Request, Session, Response, redirect, page, json, World, View, flash,
}
use secure_multi_tenant_saas.Rds.Row.{UserRow}
use secure_multi_tenant_saas.Cognito.UserPool.{change_password}
use secure_multi_tenant_saas.Kms.{encrypt_field, decrypt_field}
use secure_multi_tenant_saas.Routes.{
  Site, Answer, Backend, Shown, profile, api_profile, password_form, on_users, on_pool, with_g,
  change_identity, flash_all, any_error,
}

unfoldable pub resolve_user_id : Option Identity → Result String
resolve_user_id none = err value_error
resolve_user_id (some i) =
    let user_id = or_else i.user_id i.username in
    if truthy? user_id then ok (or_empty user_id) else err value_error

abbrev one_if : Bool → ℕ
one_if b = if b then 1 else 0

-- `int((filled / len(fields)) * 100)`, exact in quarters.
unfoldable pub profile_completion : Option UserRow → ℕ
profile_completion none = 0
profile_completion (some row) =
    (one_if (truthy row.username)
      + one_if (truthy row.email)
      + one_if (truthy row.phone)
      + one_if (truthy row.department))
    * 100
    / 4

abbrev or_g : Option Identity → Option Identity → Option Identity
or_g none g = g
or_g (some i) g = some i

unfoldable pub current_identity : {X : Type 0} → World X → Option Identity
current_identity w = or_g w.session.identity w.identity

unfoldable pub wants_json : {X : Type 0} → Request → World X → Bool
wants_json request w =
    let accept = get_or (request.header "Accept") "" in
    accept == "application/json"
    || truthy? (request.header "Authorization")
      && not (is_some w.session.identity || is_infix (codes "text/html") (codes accept))

-- `request.form.get(key, "")`
abbrev pub form_text : Request → String → String
form_text request key = get_or (get request.form key) ""

-- `if b: errors.append(message)`
abbrev error_if : Bool → String → List String
error_if b message = if b then message ∷ [] else []

unfoldable pub not_email : String → Bool
not_email email = not (has_char b'@' email) || not (has_char b'.' email)

unfoldable pub profile_errors : String → String → List String
unfolding not_email
profile_errors name email =
    error_if (not (truthy name)) "Name is required."
    ++ error_if (not_email email) "Please enter a valid email address."

module _ {X S Bytes : Type 0} (Bill : Type 0) (config : Config) (backend : Backend X S Bytes) where
  abbrev answer_dashboard : Option Identity → Option UserRow → Bool → Response (Shown Bill)
  answer_dashboard identity row as_json =
      if as_json
      then json 200 (api_profile identity row)
      else page "dashboard.html" (profile identity row (profile_completion row))

  unfoldable pub dashboard : Request → Answer X S Bill
  unfolding current_identity resolve_user_id wants_json
  dashboard request = with_g λ g.
      if g.role == "admin"
      then pure (redirect "admin.dashboard")
      else gets current_identity >>= λ identity. lift (resolve_user_id identity) >>= λ user_id.
          on_users (backend.users.get_user_by_id g.tenant user_id) >>= λ row.
          gets (wants_json request) >>= λ as_json. pure (answer_dashboard identity row as_json)

  abbrev decrypted : UserRow → Result String → Result (Option UserRow)
  decrypted row (ok phone) = ok (some (record row { phone = phone }))
  decrypted row (err e) = err e

  -- The record with its phone number decrypted, if that bears a mark.
  unfoldable pub readable : Option UserRow → Result (Option UserRow)
  readable none = ok none
  readable (some row) =
      if startswith row.phone "demo-enc:" || startswith row.phone "enc:"
      then decrypted row (decrypt_field config backend.codecs row.phone)
      else ok (some row)

  unfoldable pub user_details_page : Answer X S Bill
  unfolding current_identity resolve_user_id readable
  user_details_page = with_g λ g. gets current_identity >>= λ identity.
      lift (resolve_user_id identity) >>= λ user_id.
      on_users (backend.users.get_user_by_id g.tenant user_id) >>= λ row.
      lift (readable row) >>= λ shown.
      pure (page "user_profile.html" (profile identity shown (profile_completion shown)))

  -- `except ValueError` about `_resolve_user_id`; no endpoint is called "auth.login".
  unfoldable pub with_user_id : Result String → (String → Answer X S Bill) → Answer X S Bill
  with_user_id (ok user_id) view = view user_id
  with_user_id (err value_error) view =
      flash "Your session is invalid. Please log in again." "danger" >> raise build_error
  with_user_id (err e) view = raise e

  abbrev role_of : Option Identity → String
  role_of none = "user"
  role_of (some i) = i.role

  -- The `try` block of `user_details_update`.
  unfoldable pub save_profile :
      (tenant user_id role name email phone department : String) → Answer X S Bill
  save_profile tenant user_id role name email phone department =
      lift (encrypt_field config backend.codecs phone) >>= λ sealed.
      on_users (
        backend.users.upsert_user_profile tenant user_id
          (("username", name)
            ∷ ("email", email)
            ∷ ("phone", sealed)
            ∷ ("department", department)
            ∷ [])
          role)
      >> change_identity (λ i. record i { profile_complete = truthy phone && truthy department })
      >> flash "Profile updated successfully." "success"
      >> pure (redirect (if role == "admin" then "admin.dashboard" else "users.dashboard"))

  abbrev save_failed : Error → Answer X S Bill
  save_failed e =
      flash "Something went wrong while saving your profile. Please try again." "danger"
      >> pure (redirect "users.user_details_page")

  unfoldable pub user_details_update : Request → Answer X S Bill
  unfolding current_identity resolve_user_id profile_errors save_profile flash_all
  user_details_update request = with_g λ g. gets current_identity >>= λ identity.
      with_user_id (resolve_user_id identity) λ user_id.
        let name = strip (form_text request "name") in
        let email = strip (form_text request "email") in
        let phone = strip (form_text request "phone") in
        let department = strip (form_text request "department") in
        let errors = profile_errors name email in
        if nonempty errors
        then flash_all errors >> pure (redirect "users.user_details_page")
        else try_except
            (save_profile g.tenant user_id (role_of identity) name email phone department) any_error
            save_failed

  unfoldable pub password_reset_page : Answer X S Bill
  unfolding current_identity
  password_reset_page = gets current_identity >>= λ identity.
      pure (page "password_reset.html" (password_form identity))

  abbrev token_in : Request → Session → String
  token_in request session =
      if truthy? session.access_token
      then or_empty session.access_token
      else remove_text "Bearer " (get_or (request.header "Authorization") "")

  -- The two `except` clauses of `password_reset_update`.
  unfoldable pub reset_failed : Error → Answer X S Bill
  reset_failed value_error =
      flash (backend.str value_error) "danger" >> pure (redirect "users.password_reset_page")
  reset_failed e =
      flash "Something went wrong while resetting your password. Please try again." "danger"
      >> pure (redirect "users.password_reset_page")

  unfoldable pub password_reset_update : Request → Answer X S Bill
  unfolding current_identity resolve_user_id
  password_reset_update request = with_g λ g. gets current_identity >>= λ identity.
      with_user_id (resolve_user_id identity) λ user_id.
        if not (form_text request "new_password" == form_text request "confirm_password")
        then flash "New password and confirmation do not match." "danger"
          >> pure (redirect "users.password_reset_page")
        else gets (λ w. token_in request w.session) >>= λ access_token.
            try_except
              (on_pool (
                  change_password config backend.client access_token
                    (form_text request "current_password") (form_text request "new_password"))
                >> on_users (backend.users.mark_password_changed g.tenant user_id)
                >> flash "Password updated successfully." "success"
                >> pure (redirect "users.user_details_page"))
              any_error reset_failed
