-- ===== src/Login.antt =====
-- Flask app/tenant-saas-app-fixed/tenant-saas-app/routes/auth_pages.py: login, callback, logout.
-- `find_user` is `get_user_by_username` of rds_service.py, `encode` is `urlencode`.
pub mod Pages
pub mod Callback
pub mod Visits
pub mod RoundTrip
use Prim.Native.String
use secure_multi_tenant_saas.Prelude.{
  ℕ, ◌+◌, ◌*◌, String, Bool, true, false, not, Option, none, some, List, [], ◌∷◌, ◌&&◌, ◌||◌, ◌==◌,
  truthy, truthy?, or_empty, get_or, is_some, ltb, if◌then◌else◌,
}
use secure_multi_tenant_saas.Prelude.Text.{strip, codes, is_infix}
use secure_multi_tenant_saas.Prelude.Dict.{Dict, get}
use secure_multi_tenant_saas.Prelude.Exec.{Exec, Result, ok, err, pure, lift, ◌>>=◌}
use secure_multi_tenant_saas.Config.{Config}
use secure_multi_tenant_saas.Web.{
  Identity, Request, Session, cleared, Response, redirect, page, World, on_session, flash,
}
use secure_multi_tenant_saas.Auth.{Claims, validate_jwt, resolve_tenant_and_role, microseconds}
use secure_multi_tenant_saas.Cognito.{Tokens, exchange_code_for_tokens}
use secure_multi_tenant_saas.Decorators.Gate.{Deps}
use secure_multi_tenant_saas.Rds.Row.{UserRow}

-- What happens to the cookie `cognito_access_token`: it is set, with its age, or deleted.
pub data Cookie : Type 0 where
  unchanged deleted : Cookie
  set_token : String → ℕ → Cookie

-- On the services, which it may change.
abbrev pub FindUser : Type 0 → Type 0
FindUser X = String → Option String → Exec X (Option UserRow)

-- What `secrets` and `hashlib` give for one login.
pub record Handshake : Type 0 where
  pub state : String
  pub code_verifier : String
  pub code_challenge : String

profile_is_complete : Option UserRow → Bool
profile_is_complete none = false
profile_is_complete (some row) = truthy row.phone && truthy row.department

user_id_of : Option UserRow → Option String
user_id_of none = none
user_id_of (some row) = some row.user_id

first_login_of : Option UserRow → Bool
first_login_of none = true
first_login_of (some row) = row.first_login

with_profile : Identity → Option UserRow → Identity
unfolding profile_is_complete user_id_of first_login_of
with_profile i row = record i {
  user_id = user_id_of row;
  profile_complete = profile_is_complete row;
  first_login = some (first_login_of row);
}

unfoldable pub build_identity : {X : Type 0} → FindUser X → Claims → Exec X Identity
unfolding with_profile
build_identity find_user claims = lift (resolve_tenant_and_role claims) >>= λ i.
    find_user i.tenant i.username >>= λ row. pure (with_profile i row)

-- The time at which the tokens expire; there is none if `int` has raised.
abbrev expires_at : ℕ → Result ℕ → Option ℕ
expires_at now (ok seconds) = some (now + seconds * microseconds)
expires_at now (err e) = none

-- `session.clear()`, and the keys that are set, also if `int` raises at the last of them.
unfoldable pub started : ℕ → Identity → Option Tokens → Session
started now i none = record cleared { permanent = true; identity = some i }
started now i (some tokens) = record cleared {
  permanent = true;
  identity = some i;
  access_token = tokens.access_token;
  refresh_token = tokens.refresh_token;
  token_expires_at = expires_at now tokens.expires_in;
}

abbrev post_login_redirect : {V : Type 0} → Identity → Response V
post_login_redirect i =
    if not i.profile_complete
    then redirect "users.user_details_page"
    else if i.role == "admin"
    then redirect "admin.dashboard"
    else redirect "users.dashboard"

-- `max(1, expires_in)`, for a token that is not empty.
abbrev access_cookie : Option String → ℕ → Cookie
access_cookie none expires_in = unchanged
access_cookie (some token) expires_in =
    if truthy token then set_token token (if ltb expires_in 1 then 1 else expires_in) else unchanged

abbrev pub Page : Type 0 → Type 0 → Type 0
Page X V = Exec (World X) (Response V × Cookie)

-- Do the code and the state of the request belong to a login that the session has begun?
abbrev same_state : Option String → Option String → Bool
same_state none expected = false
same_state (some s) none = false
same_state (some s) (some t) = truthy s && truthy t && s == t

abbrev pub is_genuine : Request → Session → Bool
is_genuine request s =
    truthy? (get request.args "code") && same_state (get request.args "state") s.oauth_state

abbrev authorize_url : Config → String
authorize_url config =
    String.◌++◌ "https://" (String.◌++◌ config.cognito_domain "/oauth2/authorize")

abbrev custom_scope : String
custom_scope = "openid email profile aws.cognito.signin.user.admin saas-api/read saas-api/write"

with_read_scope : String → String
with_read_scope scope =
    if is_infix (codes "saas-api/read") (codes scope)
    then scope
    else strip (String.◌++◌ scope " saas-api/read")

build_login_url : Config → (Dict String → String) → Handshake → String → String
unfolding with_read_scope
build_login_url config encode h scope =
    let params : Dict String =
      ("client_id", config.cognito_app_client_id)
      ∷ ("response_type", "code")
      ∷ ("scope", with_read_scope scope)
      ∷ ("redirect_uri", config.cognito_redirect_uri)
      ∷ ("state", h.state)
      ∷ ("code_challenge_method", "S256")
      ∷ ("code_challenge", h.code_challenge)
      ∷ [] in
    String.◌++◌ (authorize_url config) (String.◌++◌ "?" (encode params))

build_logout_url : Config → (Dict String → String) → String
build_logout_url config encode =
    let back =
      if truthy config.cognito_logout_redirect_uri
      then config.cognito_logout_redirect_uri
      else config.cognito_redirect_uri in
    let params : Dict String =
      ("client_id", config.cognito_app_client_id) ∷ ("logout_uri", back) ∷ [] in
    String.◌++◌ "https://"
      (String.◌++◌ config.cognito_domain (String.◌++◌ "/logout?" (encode params)))
