-- ===== src/Routes/Password.antt =====
-- Flask app/tenant-saas-app-fixed/tenant-saas-app/routes/password.py: the pages. `other_digit`
-- tells the decimal digits outside ASCII.
pub mod Rules
use secure_multi_tenant_saas.Prelude.{
  String, Char, Bool, true, false, not, Option, none, some, List, [], ◌∷◌, ◌&&◌, ◌==◌, nonempty,
  truthy, or_empty, if◌then◌else◌,
}
use secure_multi_tenant_saas.Prelude.Exec.{
  Exec, Result, ok, err, Error, key_error, pure, raise, lift, gets, try_except, continue, ◌>>=◌,
  ◌>>◌,
}
use secure_multi_tenant_saas.Config.{Config}
use secure_multi_tenant_saas.Web.{
  Identity, Request, Session, Response, redirect, page, World, View, flash,
}
use secure_multi_tenant_saas.Password.{password_errors}
use secure_multi_tenant_saas.Cognito.UserPool.{change_password}
use secure_multi_tenant_saas.Routes.{
  Site, Answer, Backend, Shown, password_form, on_pool, change_identity, flash_all, any_error,
}
use secure_multi_tenant_saas.Routes.Users.{form_text}

-- What `reset_submit` finds wrong with a form.
unfoldable pub reset_errors : (Char → Bool) → Request → List String
reset_errors other_digit request =
    let errors =
      password_errors other_digit (form_text request "new_password")
        (form_text request "confirm_password") in
    if truthy (form_text request "current_password")
    then errors
    else "Current password is required." ∷ errors

-- The flags that a change of the password sets.
abbrev pub with_new_password : Identity → Identity
with_new_password i = record i { password_reset_done = true; first_login = some false }

module _ {X S Bytes : Type 0} (Bill : Type 0) (config : Config) (backend : Backend X S Bytes) where
  unfoldable pub reset_page : Answer X S Bill
  reset_page = gets (λ w. w.session.identity) >>= λ identity.
      pure (page "password_reset.html" (password_form identity))

  -- `session["identity"]`
  unfoldable pub with_session_identity :
      Option Identity → (Identity → Answer X S Bill) → Answer X S Bill
  with_session_identity none view = raise key_error
  with_session_identity (some i) view = view i

  abbrev after_reset : Identity → Response (Shown Bill)
  after_reset i =
      if not i.profile_complete
      then redirect "users.user_details_page"
      else if i.role == "admin"
      then redirect "admin.dashboard"
      else redirect "users.dashboard"

  unfoldable pub reset_failed : Identity → Error → Answer X S Bill
  reset_failed i e =
      flash "We couldn't update your password. Please check your current password and try again."
        "danger"
      >> gets (λ w. w.session.identity)
      >>= λ identity. pure (page "password_reset.html" (password_form identity))

  -- With a form that is in order.
  unfoldable pub reset_with : Request → String → Identity → Answer X S Bill
  reset_with request access_token i =
      if not (truthy access_token) && not config.demo_mode
      then flash
          "Your session needs to be refreshed before changing your password. Please sign in again."
          "warning"
        >> pure (redirect "auth_pages.login")
      else try_except
          (on_pool (
              change_password config backend.client access_token
                (form_text request "current_password") (form_text request "new_password"))
            >> change_identity with_new_password
            >> flash "Your password has been updated successfully." "success"
            >> pure (after_reset i))
          any_error (reset_failed i)

  unfoldable pub reset_form : (Char → Bool) → Request → Option String → Identity → Answer X S Bill
  unfolding reset_errors reset_with
  reset_form other_digit request access_token i =
      let errors = reset_errors other_digit request in
      if nonempty errors
      then flash_all errors >> pure (page "password_reset.html" (password_form (some i)))
      else reset_with request (or_empty access_token) i

  unfoldable pub reset_submit : (Char → Bool) → Request → Answer X S Bill
  unfolding reset_form
  reset_submit other_digit request w =
      with_session_identity w.session.identity
        (reset_form other_digit request w.session.access_token) w
