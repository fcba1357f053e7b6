-- ===== src/Config/Deployment.antt =====
-- config.py: the settings of a deployment that decide no request: those of the session cookie, the
-- URLs of Cognito, the database, logging and time-outs. `float_of` stands for `float` of a text.
use Prim.Native.String
use secure_multi_tenant_saas.Prelude.{String, ◌≡◌, refl, Bool, Option, some, [], ◌∷◌, get_or}
use secure_multi_tenant_saas.Prelude.Text.{strip, is_true_word}
use secure_multi_tenant_saas.Prelude.Dict.{Dict, get}
use secure_multi_tenant_saas.Prelude.Int.{ℤ}
use secure_multi_tenant_saas.Prelude.Numeral.{int_of}
use secure_multi_tenant_saas.Prelude.Exec.{Result, ok, err, value_error, and_then, or_value_error}
use secure_multi_tenant_saas.Config.{Config}

-- The lifetime is in minutes.
pub record Deployment (Float : Type 0) : Type 0 where
  pub secret_key : String
  pub env : String
  pub session_cookie_secure : Bool
  pub permanent_session_lifetime : ℤ
  pub cognito_region : String
  pub cognito_jwks_url : String
  pub cognito_scopes : String
  pub rds_host : String
  pub rds_port : ℤ
  pub rds_db_name : String
  pub rds_connect_timeout : ℤ
  pub log_group_name : String
  pub log_level : String
  pub usage_publish_timeout_seconds : Float

-- `int(os.environ.get(name, default))`
int_setting : Dict String → String → String → Result ℤ
int_setting environ name default = or_value_error (int_of (get_or (get environ name) default))

abbrev jwks_url : String → String → String
jwks_url region pool =
    String.◌++◌ "https://cognito-idp." (
      String.◌++◌ region
        (String.◌++◌ ".amazonaws.com/" (String.◌++◌ pool "/.well-known/jwks.json")))

-- Where a number cannot be read, the module cannot be imported.
unfoldable pub deployment_of :
    {Float : Type 0} → (String → Option Float) → Config → Dict String → Result (Deployment Float)
unfolding int_setting
deployment_of float_of config environ =
    and_then (int_setting environ "SESSION_TTL_MINUTES" "30") λ lifetime.
      and_then (int_setting environ "RDS_PORT" "3306") λ port.
        and_then (int_setting environ "RDS_CONNECT_TIMEOUT" "5") λ connect_timeout.
          and_then
            (or_value_error (float_of (get_or (get environ "USAGE_PUBLISH_TIMEOUT_SECONDS") "1.5")))
            λ publish_timeout.
              let region = get_or (get environ "COGNITO_REGION") config.aws_region in
              ok (record {
                secret_key = get_or (get environ "FLASK_SECRET_KEY") "dev-only-change-me";
                env = get_or (get environ "FLASK_ENV") "production";
                session_cookie_secure =
                    is_true_word (get_or (get environ "SESSION_COOKIE_SECURE") "true");
                permanent_session_lifetime = lifetime;
                cognito_region = region;
                cognito_jwks_url = jwks_url region config.cognito_user_pool_id;
                cognito_scopes = strip (
                    get_or (get environ "COGNITO_SCOPES")
                      "openid email profile aws.cognito.signin.user.admin");
                rds_host = get_or (get environ "RDS_HOST") "localhost";
                rds_port = port;
                rds_db_name = get_or (get environ "RDS_DB_NAME") "tenant_saas";
                rds_connect_timeout = connect_timeout;
                log_group_name = get_or (get environ "LOG_GROUP_NAME") "/ecs/tenant-saas-app";
                log_level = get_or (get environ "LOG_LEVEL") "INFO";
                usage_publish_timeout_seconds = publish_timeout;
              })

-- A port that is no number stops the import, whatever the rest.
bad_port :
    (config : Config) → deployment_of some config (("RDS_PORT", "mysql") ∷ []) ≡ err value_error
unfolding deployment_of int_of strip get
bad_port config = refl
