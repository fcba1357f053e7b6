-- ===== src/Config.antt =====
-- Flask app/tenant-saas-app-fixed/tenant-saas-app/config.py: the settings, read from the
-- environment. `Deployment` has those of the session cookie, time-outs, logging and the
-- database's address; `loads` stands for `json.loads`, as far as `dict.update` takes its result.
pub mod Defaults
pub mod Deployment
use secure_multi_tenant_saas.Prelude.{
  String, Bool, Option, none, some, List, [], ◌∷◌, map, keep_if, truthy, get_or, if◌then◌else◌,
}
use secure_multi_tenant_saas.Prelude.Text.{strip, rstrip_by, split_char, is_true_word, is_char}
use secure_multi_tenant_saas.Prelude.Dict.{Dict, get, update}

-- One entry of COGNITO_GROUP_MAP.
pub record Mapping : Type 0 where
  pub tenant : String
  pub role : String

abbrev pub cognito_group_map : Dict Mapping
cognito_group_map =
    ("TenantA_admin", record { tenant = "TenantA"; role = "admin" })
    ∷ ("TenantA_user", record { tenant = "TenantA"; role = "user" })
    ∷ ("TenantB_admin", record { tenant = "TenantB"; role = "admin" })
    ∷ ("TenantB_user", record { tenant = "TenantB"; role = "user" })
    ∷ []

-- A value of the map of plans: a text, or another value of JSON, which names no plan. A list or an
-- object, at which the look-up in the catalogue raises a `TypeError`, is left out.
pub data PlanName : Type 0 where
  named : String → PlanName
  other_json : PlanName

abbrev pub default_plan_map : Dict PlanName
default_plan_map = ("TenantA", named "Pro") ∷ ("TenantB", named "Basic") ∷ []

pub record Config : Type 0 where
  pub demo_mode : Bool
  pub debug : Bool
  pub aws_region : String
  pub cognito_user_pool_id : String
  pub cognito_app_client_id : String
  pub cognito_domain : String
  pub cognito_redirect_uri : String
  pub cognito_logout_redirect_uri : String
  pub cognito_app_client_secret : String
  pub json_api_route_prefixes : List String
  pub api_gateway_trusted_headers_enabled : Bool
  pub api_gw_shared_secret : String
  pub api_gw_secret_header_name : String
  pub api_gw_sub_header_name : String
  pub api_gw_username_header_name : String
  pub api_gw_email_header_name : String
  pub api_gw_groups_header_name : String
  pub secrets_manager_secret_name : String
  pub kms_key_id : String
  pub usage_metering_enabled : Bool
  pub usage_events_queue_url : String
  pub usage_aggregate_table : String
  pub billing_plan_map : Dict PlanName

-- `s or d`
or_default : String → String → String
or_default s d = if truthy s then s else d

-- `BILLING_PLAN_MAP.update(json.loads(text))`, where a text that does not load changes nothing.
abbrev merge_plans : Option (Dict PlanName) → Dict PlanName
merge_plans none = default_plan_map
merge_plans (some given) = update default_plan_map given

plans : (String → Option (Dict PlanName)) → String → Dict PlanName
plans loads text = if truthy text then merge_plans (loads text) else default_plan_map

-- `tuple(p.strip() for p in s.split(",") if p.strip())`
prefixes : String → List String
prefixes s = keep_if truthy (map strip (split_char b',' s))

pub config_of : (String → Option (Dict PlanName)) → Dict String → Config
unfolding plans prefixes or_default
config_of loads environ = record {
  demo_mode = is_true_word (get_or (get environ "DEMO_MODE") "true");
  debug = is_true_word (get_or (get environ "FLASK_DEBUG") "false");
  aws_region = or_default (strip (get_or (get environ "AWS_REGION") "us-east-1")) "us-east-1";
  cognito_user_pool_id = get_or (get environ "COGNITO_USER_POOL_ID") "";
  cognito_app_client_id = get_or (get environ "COGNITO_APP_CLIENT_ID") "";
  cognito_domain = rstrip_by (is_char b'/') (strip (get_or (get environ "COGNITO_DOMAIN") ""));
  cognito_redirect_uri = strip (get_or (get environ "COGNITO_REDIRECT_URI") "");
  cognito_logout_redirect_uri = strip (get_or (get environ "COGNITO_LOGOUT_REDIRECT_URI") "");
  cognito_app_client_secret = strip (get_or (get environ "COGNITO_APP_CLIENT_SECRET") "");
  json_api_route_prefixes =
      prefixes (get_or (get environ "JSON_API_ROUTE_PREFIXES") "/api/v1/billing/");
  api_gateway_trusted_headers_enabled =
      is_true_word (get_or (get environ "API_GATEWAY_TRUSTED_HEADERS_ENABLED") "false");
  api_gw_shared_secret = strip (get_or (get environ "API_GW_SHARED_SECRET") "");
  api_gw_secret_header_name =
      strip (get_or (get environ "API_GW_SECRET_HEADER_NAME") "X-Api-Gateway-Secret");
  api_gw_sub_header_name =
      strip (get_or (get environ "API_GW_SUB_HEADER_NAME") "X-Amzn-Cognito-Sub");
  api_gw_username_header_name =
      strip (get_or (get environ "API_GW_USERNAME_HEADER_NAME") "X-Amzn-Cognito-Username");
  api_gw_email_header_name =
      strip (get_or (get environ "API_GW_EMAIL_HEADER_NAME") "X-Amzn-Cognito-Email");
  api_gw_groups_header_name =
      strip (get_or (get environ "API_GW_GROUPS_HEADER_NAME") "X-Amzn-Cognito-Groups");
  secrets_manager_secret_name =
      or_default (strip (get_or (get environ "SECRETS_MANAGER_SECRET_NAME") "saas/secrets/rds/31"))
        "saas/secrets/rds/31";
  kms_key_id = get_or (get environ "KMS_KEY_ID") "";
  usage_metering_enabled = is_true_word (get_or (get environ "USAGE_METERING_ENABLED") "false");
  usage_events_queue_url = strip (get_or (get environ "USAGE_EVENTS_QUEUE_URL") "");
  usage_aggregate_table =
      strip (get_or (get environ "USAGE_AGGREGATE_TABLE") "UsageMonthlyAggregate");
  billing_plan_map = plans loads (strip (get_or (get environ "BILLING_PLAN_MAP_JSON") ""));
}
