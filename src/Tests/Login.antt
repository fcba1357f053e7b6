-- ===== src/Tests/Login.antt =====
-- Tests of auth_pages.py.
use secure_multi_tenant_saas.Prelude.{
  String, ◌≡◌, refl, Bool, true, false, none, some, List, [], ◌∷◌, truthy?, or_empty,
}
use secure_multi_tenant_saas.Prelude.Dict.{get}
use secure_multi_tenant_saas.Prelude.Exec.{ok, err, type_error, pure}
use secure_multi_tenant_saas.Web.{Identity, Request, redirect, cleared, World}
use secure_multi_tenant_saas.Auth.{Jwt, validate_jwt, resolve_tenant_and_role}
use secure_multi_tenant_saas.Cognito.{Endpoint, reply, Tokens, exchange_code_for_tokens}
use secure_multi_tenant_saas.Decorators.Gate.{Deps}
use secure_multi_tenant_saas.Decorators.Identify.Scope.{IsScoped?}
use secure_multi_tenant_saas.Login.{unchanged, FindUser, Handshake, build_identity, started}
use secure_multi_tenant_saas.Login.Pages.{sign_in, callback}
use secure_multi_tenant_saas.Login.Callback.{CallbackEnds, callback-CallbackEnds}
use secure_multi_tenant_saas.Login.Visits.{
  Visit, starts_login, calls_back, after_callback, after_callbacks, visit_all, callback_once,
  visit_all-Scoped,
}
use secure_multi_tenant_saas.Login.RoundTrip.{begin, login_round_trip}
use secure_multi_tenant_saas.Tests.Fixtures.{live, claims, request}

-- An endpoint that takes every code, and a library that knows every token.
abbrev post : Endpoint
post auth form = reply 200 (
    some (record {
      id_token = some "id";
      access_token = some "access";
      refresh_token = some "refresh";
      expires_in = some (ok 3600);
      token_type = none;
    }))

abbrev jwt : Jwt
jwt = record { decode_unverified = λ token. none; decode_verified = λ config token. some claims }

abbrev deps : Deps
deps = record { jwt = jwt; post = post; now = 5000000 }

abbrev nobody : FindUser Bool
nobody tenant username = pure none

abbrev back : Request
back = record request { args = ("code", "c1") ∷ ("state", "s1") ∷ [] }

abbrev begun : World Bool
begun = record {
  session = record cleared { oauth_state = some "s1"; oauth_code_verifier = some "v1" };
  identity = none;
  services = false;
}

callback-CallbackEnds_example :
    CallbackEnds {V = String} live deps nobody back begun (callback live deps nobody back begun)
callback-CallbackEnds_example = callback-CallbackEnds live deps nobody back begun

no_error : truthy? (get back.args "error") ≡ false
unfolding get
no_error = refl

callback_once_example :
    let w' = after_callback String live deps nobody back begun in
    (after_callbacks String live deps nobody (back ∷ back ∷ []) w').session.identity
    ≡ w'.session.identity
callback_once_example = callback_once String live deps nobody back (back ∷ back ∷ []) begun no_error

abbrev visits : List Visit
visits =
    starts_login (λ params. "")
      (record { state = "s1"; code_verifier = "v1"; code_challenge = "h1" })
    ∷ calls_back back
    ∷ calls_back back
    ∷ []

visit_all-Scoped_example :
    IsScoped? (visit_all String live deps nobody visits begun).session.identity
visit_all-Scoped_example = visit_all-Scoped String live deps nobody visits begun tt

abbrev handshake : Handshake
handshake = record { state = "s1"; code_verifier = "v1"; code_challenge = "h1" }

abbrev tokens : Tokens
tokens = record {
  id_token = some "id";
  access_token = some "access";
  refresh_token = some "refresh";
  expires_in = ok 3600;
  token_type = "Bearer";
}

abbrev bo : Identity
bo = record {
  tenant = "TenantB";
  role = "user";
  group = "TenantB_user";
  username = some "bo";
  email = none;
  sub = some "u2";
  user_id = none;
  profile_complete = false;
  first_login = some true;
  password_reset_done = false;
}

code_given : truthy? (get back.args "code") ≡ true
unfolding get
code_given = refl

state_given : get back.args "state" ≡ some "s1"
unfolding get
state_given = refl

exchanged :
    exchange_code_for_tokens live post (or_empty (get back.args "code")) (some "v1") ≡ ok tokens
unfolding exchange_code_for_tokens
exchanged = refl

valid : validate_jwt live jwt 5000000 "id" ≡ ok claims
unfolding validate_jwt
valid = refl

identified : (build_identity nobody claims false).0 ≡ ok bo
unfolding build_identity resolve_tenant_and_role get
identified = refl

login_round_trip_example :
    (callback {V = String} live deps nobody back
      (begin String live (λ params. "") handshake begun)).1.session
    ≡ started 5000000 bo (some tokens)
login_round_trip_example =
    login_round_trip String live (λ params. "") handshake deps nobody back begun tokens claims bo
      refl refl refl refl refl no_error state_given code_given exchanged refl valid identified refl

-- A lifetime that is no number: the browser is at the login page, and the session is Bo's.
abbrev no_lifetime : Endpoint
no_lifetime auth form = reply 200 (
    some (record {
      id_token = some "id";
      access_token = some "access";
      refresh_token = none;
      expires_in = some (err type_error);
      token_type = none;
    }))

left_behind :
    let out = callback {V = String} live (record deps { post = no_lifetime }) nobody back begun in
    (out.0 ≡ ok (redirect "auth_pages.login", unchanged)) × (out.1.session.identity ≡ some bo)
unfolding callback sign_in exchange_code_for_tokens validate_jwt build_identity
    resolve_tenant_and_role get started
left_behind = (refl, refl)
