-- ===== src/Tests/Fixtures.antt =====
-- The settings, identities and requests that the tests use.
use secure_multi_tenant_saas.Prelude.{String, Bool, true, false, none, some, [], ◌∷◌}
use secure_multi_tenant_saas.Prelude.Dict.{Dict, get}
use secure_multi_tenant_saas.Prelude.Exec.{ok}
use secure_multi_tenant_saas.Config.{Config, named}
use secure_multi_tenant_saas.Web.{Identity, Request, Session, cleared, page, World, View}
use secure_multi_tenant_saas.Auth.{Claims, Jwt}
use secure_multi_tenant_saas.Cognito.{network_error}
use secure_multi_tenant_saas.Decorators.Gate.{Deps}

-- A deployment behind the gateway.
abbrev pub live : Config
live = record {
  demo_mode = false;
  debug = false;
  aws_region = "us-east-1";
  cognito_user_pool_id = "pool";
  cognito_app_client_id = "client";
  cognito_domain = "https://login.test";
  cognito_redirect_uri = "https://app.test/auth/callback";
  cognito_logout_redirect_uri = "";
  cognito_app_client_secret = "";
  json_api_route_prefixes = "/api/v1/billing/" ∷ [];
  api_gateway_trusted_headers_enabled = true;
  api_gw_shared_secret = "s3cret";
  api_gw_secret_header_name = "X-Api-Gateway-Secret";
  api_gw_sub_header_name = "X-Amzn-Cognito-Sub";
  api_gw_username_header_name = "X-Amzn-Cognito-Username";
  api_gw_email_header_name = "X-Amzn-Cognito-Email";
  api_gw_groups_header_name = "X-Amzn-Cognito-Groups";
  secrets_manager_secret_name = "secret";
  kms_key_id = "";
  usage_metering_enabled = true;
  usage_events_queue_url = "https://queue.test";
  usage_aggregate_table = "UsageMonthlyAggregate";
  billing_plan_map = ("TenantA", named "Pro") ∷ ("TenantB", named "Basic") ∷ [];
}

abbrev pub claims : Claims
claims = record {
  groups = "Guests" ∷ "TenantB_user" ∷ [];
  cognito_username = some "bo";
  username = none;
  email = none;
  sub = some "u2";
  token_use = some "id";
  exp = some 100;
}

abbrev pub jwt : Jwt
jwt = record { decode_unverified = λ token. some claims; decode_verified = λ config token. none }

abbrev pub deps : Deps
deps = record { jwt = jwt; post = λ auth form. network_error; now = 5000000 }

abbrev pub ann : Identity
ann = record {
  tenant = "TenantA";
  role = "admin";
  group = "TenantA_admin";
  username = some "ann";
  email = none;
  sub = some "u1";
  user_id = some "u1";
  profile_complete = true;
  first_login = none;
  password_reset_done = false;
}

abbrev headers : Dict String
headers =
    ("X-Api-Gateway-Secret", "s3cret")
    ∷ ("X-Amzn-Cognito-Sub", "u1")
    ∷ ("X-Amzn-Cognito-Username", "ann")
    ∷ ("X-Amzn-Cognito-Groups", "[TenantA_admin, Guests]")
    ∷ []

abbrev pub request : Request
request = record {
  method = "GET";
  path = "/api/v1/users";
  header = λ name. get headers name;
  cookies = [];
  args = [];
  form = [];
}

abbrev pub signed_in : Session
signed_in = record cleared { identity = some ann; token_expires_at = some 4000000 }

abbrev pub start : World Bool
start = record { session = signed_in; identity = none; services = false }

-- A view that changes what the services keep.
abbrev pub view : View Bool String
view w = (ok (page "users.html" "done"), record w { services = true })
