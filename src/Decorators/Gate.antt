-- ===== src/Decorators/Gate.antt =====
-- decorators.py: `login_required`, `admin_required`, and the refresh of a session's tokens.
pub mod Access
pub mod Expiry
use secure_multi_tenant_saas.Prelude.{
  ℕ, ◌+◌, ◌*◌, String, Bool, true, false, not, Option, none, some, ◌&&◌, ◌||◌, ◌==◌, any_of,
  truthy?, is_some, get_or, ltb, eqb, if◌then◌else◌,
}
use secure_multi_tenant_saas.Prelude.Text.{startswith}
use secure_multi_tenant_saas.Prelude.Exec.{
  Exec, Result, ok, err, Error, oauth_exchange, pure, raise, lift, gets, ◌>>=◌, ◌>>◌,
}
use secure_multi_tenant_saas.Config.{Config}
use secure_multi_tenant_saas.Web.{
  Identity, Request, Session, cleared, Response, redirect, json_error, World, View, on_session,
  flash,
}
use secure_multi_tenant_saas.Auth.{Jwt, microseconds}
use secure_multi_tenant_saas.Cognito.{Endpoint, Tokens, refresh_tokens}
use secure_multi_tenant_saas.Decorators.Identify.{resolve_identity}

-- What the decorators use from outside: PyJWT, Cognito's token endpoint, and the clock, which is
-- read once in a request.
pub record Deps : Type 0 where
  pub jwt : Jwt
  pub post : Endpoint
  pub now : ℕ

abbrev token_refresh_skew : ℕ
token_refresh_skew = 60 * microseconds

module _ {X : Type 0} (config : Config) (deps : Deps) where
  -- `session.clear()`, and the answer that the session is over.
  abbrev end_session : Exec (World X) Bool
  end_session = on_session (λ s. cleared) >> pure false

  abbrev store_tokens : Result Tokens → Exec (World X) Bool
  store_tokens (ok tokens) =
      on_session (λ s. record s { access_token = tokens.access_token })
      >> lift tokens.expires_in
      >>= λ seconds.
          on_session (λ s. record s { token_expires_at = some (deps.now + seconds * microseconds) })
          >> pure true
  store_tokens (err oauth_exchange) = end_session
  store_tokens (err e) = raise e

  abbrev refresh_with : Option String → Exec (World X) Bool
  refresh_with none = end_session
  refresh_with (some token) =
      if truthy? (some token)
      then store_tokens (refresh_tokens config deps.post token)
      else end_session

  -- `time.time() < expires_at - skew`, with the skew on the other side.
  refresh_session_tokens_if_needed : Exec (World X) Bool
  refresh_session_tokens_if_needed w =
      let expires_at = get_or w.session.token_expires_at 0 in
      (if eqb expires_at 0 || ltb (deps.now + token_refresh_skew) expires_at
          then pure true
          else refresh_with w.session.refresh_token)
        w

abbrev pub is_json_route : Config → Request → Bool
is_json_route config request =
    is_some (request.header config.api_gw_secret_header_name)
    || truthy? (request.header "Authorization")
    || any_of (startswith request.path) config.json_api_route_prefixes

-- `session.get("identity") and not config.DEMO_MODE`: the tokens are looked at.
abbrev pub has_tokens : Config → Session → Bool
has_tokens config session = is_some session.identity && not config.demo_mode

unfoldable pub check_tokens : {X : Type 0} → Config → Deps → Exec (World X) Bool
unfolding refresh_session_tokens_if_needed
check_tokens config deps w =
    (if has_tokens config w.session
        then refresh_session_tokens_if_needed config deps
        else pure true)
      w

abbrev or_g : Option Identity → Option Identity → Option Identity
or_g none i = i
or_g (some i) _ = some i

module _ {X V : Type 0} where
  unauthenticated_response : Config → Request → View X V
  unauthenticated_response config request =
      if is_json_route config request
      then pure (json_error 401 "unauthenticated")
      else flash "Please sign in to continue." "warning" >> pure (redirect "auth_pages.login")

  -- `g.identity = identity`, with its tenant and role, and the view itself.
  abbrev enter : Identity → View X V → View X V
  enter i view w = view (record w { identity = some i })

  forbidden_response : Config → Request → View X V
  forbidden_response config request =
      if is_json_route config request
      then pure (json_error 403 "forbidden")
      else flash "You do not have permission to view that page." "danger"
        >> pure (redirect "users.dashboard")

  abbrev enter_if : Identity → View X V → Bool → View X V
  enter_if i view fresh =
      if fresh
      then enter i view
      else flash "Your session has expired. Please sign in again." "warning"
        >> pure (redirect "auth_pages.login")

  admit_login : Config → Deps → Request → View X V → Option Identity → View X V
  unfolding unauthenticated_response check_tokens
  admit_login config deps request view none = unauthenticated_response config request
  admit_login config deps request view (some i) = check_tokens config deps >>= enter_if i view

  -- The decorated view.
  pub login_required : Config → Deps → Request → View X V → View X V
  unfolding admit_login
  login_required config deps request view w =
      (lift (resolve_identity config deps.jwt deps.now request w.session)
          >>= admit_login config deps request view)
        w

  admit_admin : Config → Request → View X V → Option Identity → View X V
  unfolding unauthenticated_response forbidden_response
  admit_admin config request view none = unauthenticated_response config request
  admit_admin config request view (some i) =
      if i.role == "admin" then enter i view else forbidden_response config request

  pub admin_required : Config → Deps → Request → View X V → View X V
  unfolding admit_admin
  admin_required config deps request view w =
      (lift (resolve_identity config deps.jwt deps.now request w.session)
          >>= admit_admin config request view)
        w

  ask_profile : Option Identity → View X V → View X V
  ask_profile none view = view
  ask_profile (some i) view =
      if i.profile_complete
      then view
      else flash "Please complete your profile before continuing." "info"
        >> pure (redirect "users.user_details_page")

  pub profile_setup_required : View X V → View X V
  unfolding ask_profile
  profile_setup_required view w = ask_profile (or_g w.session.identity w.identity) view w
