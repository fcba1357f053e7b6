-- ===== src/Login/Pages.antt =====
-- auth_pages.py: the views.
use secure_multi_tenant_saas.Prelude.{
  ℕ, String, Bool, not, none, some, [], ◌∷◌, ◌&&◌, ◌||◌, truthy, truthy?, or_empty, get_or, is_some,
  if◌then◌else◌,
}
use secure_multi_tenant_saas.Prelude.Text.{strip}
use secure_multi_tenant_saas.Prelude.Dict.{Dict, get}
use secure_multi_tenant_saas.Prelude.Exec.{
  Exec, Result, ok, err, Error, oauth_exchange, invalid_token, pure, lift, ◌>>=◌, ◌>>◌,
}
use secure_multi_tenant_saas.Config.{Config}
use secure_multi_tenant_saas.Web.{
  Identity, Request, Session, cleared, redirect, page, on_session, flash,
}
use secure_multi_tenant_saas.Auth.{Claims, validate_jwt}
use secure_multi_tenant_saas.Cognito.{Tokens, exchange_code_for_tokens}
use secure_multi_tenant_saas.Decorators.Gate.{Deps}
use secure_multi_tenant_saas.Login.{
  unchanged, deleted, FindUser, Handshake, build_identity, started, post_login_redirect,
  access_cookie, Page, is_genuine, custom_scope, build_login_url, build_logout_url,
}

pub demo_claims : Request → String → Claims
demo_claims request group = record {
  groups = group ∷ [];
  cognito_username = some (get_or (get request.form "username") "demo.user");
  username = none;
  email = some (get_or (get request.form "email") "demo.user@example.com");
  sub = some "demo-sub";
  token_use = none;
  exp = none;
}

-- The code is exchanged, and the identity token validated and resolved.
abbrev pub require_id_token : Tokens → Result String
require_id_token tokens =
    if truthy? tokens.id_token then ok (or_empty tokens.id_token) else err oauth_exchange

unfoldable pub sign_in :
    {X : Type 0} → Config → Deps → FindUser X → Request → Session → Exec X (Tokens × Identity)
sign_in config deps find_user request s =
    lift (
      exchange_code_for_tokens config deps.post (or_empty (get request.args "code"))
        s.oauth_code_verifier)
    >>= λ tokens. lift (require_id_token tokens) >>= λ id_token.
        lift (validate_jwt config deps.jwt deps.now id_token) >>= λ claims.
        build_identity find_user claims >>= λ i. pure (tokens, i)

module _ {X V : Type 0} where
  abbrev to_login : String → String → Page X V
  to_login message category =
      flash message category >> pure (redirect "auth_pages.login", unchanged)

  pub index : Page X V
  index w =
      if is_some w.session.identity
      then (ok (redirect "users.dashboard", unchanged), w)
      else (ok (redirect "auth_pages.login", unchanged), w)

  -- `GET /login`; the page shows whether this is demo mode.
  pub login : (Bool → V) → Config → Page X V
  login shown config w =
      if is_some w.session.identity
      then (ok (redirect "users.dashboard", unchanged), w)
      else (ok (page "login.html" (shown config.demo_mode), unchanged), w)

  unfoldable pub login_redirect : Config → (Dict String → String) → Handshake → Page X V
  unfolding build_login_url
  login_redirect config encode h =
      if config.demo_mode
      then to_login "DEMO_MODE is enabled -- use the tenant/role picker below to sign in." "info"
      else if truthy config.cognito_domain
          && truthy config.cognito_app_client_id
          && truthy config.cognito_redirect_uri
      then on_session
          (λ s. record s { oauth_state = some h.state; oauth_code_verifier = some h.code_verifier })
        >> pure (redirect (build_login_url config encode h custom_scope), unchanged)
      else to_login "Sign-in is temporarily unavailable. Please contact your administrator."
          "danger"

  abbrev rejected : Page X V
  rejected = to_login "We couldn't verify your credentials. Please try signing in again." "danger"

  -- What is done with the result of `m`, in the state that it leaves.
  abbrev pub after_services : {A : Type 0} → Exec X A → (Result A → Page X V) → Page X V
  after_services m f w = let (r, x) = m w.services in f r (record w { services = x })

  -- Only `InvalidTokenError` is caught.
  abbrev pub demo_outcome : ℕ → Result Identity → Page X V
  demo_outcome now (ok i) =
      on_session (λ s. started now i none) >> pure (post_login_redirect i, unchanged)
  demo_outcome now (err invalid_token) = rejected
  demo_outcome now (err e) = λ w. (err e, w)

  unfoldable pub login_demo_submit : Config → ℕ → FindUser X → Request → Page X V
  unfolding demo_claims
  login_demo_submit config now find_user request =
      let group = strip (get_or (get request.form "demo_group") "") in
      let sign_in =
        after_services (build_identity find_user (demo_claims request group)) (demo_outcome now) in
      if config.demo_mode
      then if truthy group then sign_in else to_login "Please choose a group to simulate." "danger"
      else to_login "Please sign in with Cognito." "warning"

  abbrev pub unverified : Page X V
  unverified =
      to_login "Your sign-in request could not be verified. Please try signing in again." "danger"

  -- Every exception ends at the login page.
  abbrev pub login_failed : Error → Page X V
  login_failed oauth_exchange = rejected
  login_failed invalid_token = rejected
  login_failed e = to_login "Something went wrong while signing you in. Please try again." "danger"

  -- `int` has been applied once the session has the identity and the tokens.
  abbrev pub started_outcome : Identity → Tokens → Result ℕ → Page X V
  started_outcome i tokens (ok seconds) =
      pure (post_login_redirect i, access_cookie tokens.access_token seconds)
  started_outcome i tokens (err e) = login_failed e

  abbrev pub callback_outcome : ℕ → Result (Tokens × Identity) → Page X V
  callback_outcome now (ok (tokens, i)) =
      on_session (λ s. started now i (some tokens)) >> started_outcome i tokens tokens.expires_in
  callback_outcome now (err e) = login_failed e

  unfoldable pub callback : Config → Deps → FindUser X → Request → Page X V
  callback config deps find_user request w =
      (if truthy? (get request.args "error")
          then to_login "Sign-in was cancelled or failed. Please try again." "warning"
          else on_session (λ s. record s { oauth_state = none; oauth_code_verifier = none })
            >> (if is_genuine request w.session
                then after_services (sign_in config deps find_user request w.session)
                    (callback_outcome deps.now)
                else unverified))
        w

  unfoldable pub logout : Config → (Dict String → String) → Page X V
  unfolding build_logout_url
  logout config encode =
      on_session (λ s. cleared)
      >> (if config.demo_mode || not (truthy config.cognito_domain)
          then flash "You have been signed out." "info"
            >> pure (redirect "auth_pages.login", deleted)
          else pure (redirect (build_logout_url config encode), deleted))
