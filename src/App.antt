-- ===== src/App.antt =====
-- Flask app/tenant-saas-app-fixed/tenant-saas-app/app.py: the start of the application, the pages
-- for errors, and the headers of every answer. `token` is what `secrets.token_urlsafe` gives.
pub mod Key
use Prim.Native.String
use secure_multi_tenant_saas.Prelude.{
  ℕ, String, Bool, true, false, not, Option, none, some, List, [], ◌∷◌, truthy, truthy?, or_empty,
  or_else, get_or, eqb, if◌then◌else◌,
}
use secure_multi_tenant_saas.Prelude.Dict.{Dict, get, put}
use secure_multi_tenant_saas.Prelude.Exec.{
  Exec, Result, ok, err, Error, runtime_error, pure, raise, try_except, continue, ◌>>=◌,
}
use secure_multi_tenant_saas.Config.{Config}
use secure_multi_tenant_saas.Secrets.{Vault, GetSecretValue, get_secret}

-- What `load_runtime_secrets` puts into `app.config`.
pub record RuntimeSecrets : Type 0 where
  pub secret_key : String
  pub cognito_app_client_secret : String

-- What `configure_session` puts there; the lifetime is in minutes.
pub record SessionCookie : Type 0 where
  pub name : String
  pub http_only : Bool
  pub secure : Bool
  pub same_site : String
  pub domain : Option String
  pub path : String
  pub is_permanent : Bool
  pub lifetime : ℕ
  pub preferred_url_scheme : String

pub configure_session : Config → SessionCookie
configure_session config = record {
  name = "app_session";
  http_only = true;
  secure = not config.debug;
  same_site = "Lax";
  domain = none;
  path = "/";
  is_permanent = false;
  lifetime = 30;
  preferred_url_scheme = "https";
}

-- `bundle.get("FLASK_SECRET_KEY") or bundle.get("flask_secret_key")`, or else the environment.
unfoldable pub configured_key : Dict String → Dict String → Option String
configured_key bundle environ =
    or_else (or_else (get bundle "FLASK_SECRET_KEY") (get bundle "flask_secret_key"))
      (get environ "FLASK_SECRET_KEY")

unfoldable pub client_secret : Dict String → Dict String → String
client_secret bundle environ = or_empty (
    or_else
      (or_else (get bundle "COGNITO_APP_CLIENT_SECRET") (get bundle "cognito_app_client_secret"))
      (some (get_or (get environ "COGNITO_APP_CLIENT_SECRET") "")))

module _ {S : Type 0} (loads : String → Option (Dict String)) (config : Config)
    (fetch : GetSecretValue S) (now : ℕ) (environ : Dict String) (token : String) where
  abbrev or_no_bundle : Error → Exec (Vault S) (Dict String)
  or_no_bundle e = if config.demo_mode then pure [] else raise e

  abbrev every : Error → Bool
  every e = true

  abbrev with_key : Dict String → String → RuntimeSecrets
  with_key bundle key = record {
    secret_key = key;
    cognito_app_client_secret = client_secret bundle environ;
  }

  -- Only demo mode makes a key up.
  abbrev choose_key : Dict String → Exec (Vault S) RuntimeSecrets
  choose_key bundle =
      if truthy? (configured_key bundle environ)
      then pure (with_key bundle (or_empty (configured_key bundle environ)))
      else if config.demo_mode
      then pure (with_key bundle token)
      else raise runtime_error

  unfoldable pub load_runtime_secrets : Exec (Vault S) RuntimeSecrets
  load_runtime_secrets =
      try_except (get_secret loads config fetch now none) every or_no_bundle >>= choose_key

  -- The part of `create_app` that decides.
  pub create_app : Exec (Vault S) (RuntimeSecrets × SessionCookie)
  create_app = load_runtime_secrets >>= λ runtime. pure (runtime, configure_session config)

-- `register_error_handlers`: the message that error.html shows for a code.
pub error_page : ℕ → Option String
error_page status =
    if eqb status 400
    then some "Bad request."
    else if eqb status 403
    then some "You don't have permission to view this page."
    else if eqb status 404
    then some "That page could not be found."
    else if eqb status 500
    then some "Something went wrong on our end."
    else none

abbrev content_security_policy : String
content_security_policy = String.◌++◌ "default-src 'self'; " (
    String.◌++◌
      "style-src 'self' 'unsafe-inline' cdn.jsdelivr.net cdnjs.cloudflare.com fonts.googleapis.com; "
      (String.◌++◌ "font-src 'self' fonts.gstatic.com cdnjs.cloudflare.com; " (
        String.◌++◌ "script-src 'self' 'unsafe-inline' cdn.jsdelivr.net cdnjs.cloudflare.com; "
          "img-src 'self' data:;")))

-- `set_secure_headers`
pub set_secure_headers : Dict String → Dict String
set_secure_headers headers =
    let sniffing = put headers "X-Content-Type-Options" "nosniff" in
    let framing = put sniffing "X-Frame-Options" "DENY" in
    let referring = put framing "Referrer-Policy" "strict-origin-when-cross-origin" in
    let transport =
      put referring "Strict-Transport-Security" "max-age=63072000; includeSubDomains" in
    put transport "Content-Security-Policy" content_security_policy
