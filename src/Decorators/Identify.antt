-- ===== src/Decorators/Identify.antt =====
-- decorators.py: the three sources of an identity.
pub mod Headers
pub mod Scope
use secure_multi_tenant_saas.Prelude.{
  ℕ, String, Bool, true, false, not, Option, none, some, List, [], ◌∷◌, map, ◌&&◌, ◌||◌, ◌==◌,
  keep_if, nonempty, truthy, truthy?, or_else, or_empty, get_or, if◌then◌else◌,
}
use secure_multi_tenant_saas.Prelude.Dict.{get}
use secure_multi_tenant_saas.Prelude.Text.{
  strip, strip_by, is_char, remove_char, split_char, is_ascii, after_prefix,
}
use secure_multi_tenant_saas.Prelude.Exec.{
  Result, ok, err, and_then, Error, trusted_header_auth, type_error, invalid_token,
}
use secure_multi_tenant_saas.Config.{Config, Mapping, cognito_group_map}
use secure_multi_tenant_saas.Web.{Identity, Request, Session}
use secure_multi_tenant_saas.Auth.{Jwt, validate_jwt, resolve_tenant_and_role}

-- `hmac.compare_digest` of two texts, which must be ASCII.
compare_digest : String → String → Result Bool
compare_digest a b = if is_ascii a && is_ascii b then ok (a == b) else err type_error

check_secret : Config → Request → Result Bool
check_secret config request =
    if truthy config.api_gw_shared_secret
    then compare_digest (or_empty (request.header config.api_gw_secret_header_name))
        config.api_gw_shared_secret
    else err trusted_header_auth

-- The names in the header of groups: `["a", "b"]`, `[a, b]` or `a,b`.
unfoldable pub trusted_groups : String → List String
trusted_groups raw = keep_if truthy (
    map strip
      (split_char b',' (remove_char b'"' (strip_by (λ c. is_char b'[' c || is_char b']' c) raw))))

pub record Chosen : Type 0 where
  pub tenant : String
  pub role : String
  pub group : String

-- One round of the loop over the groups.
unfoldable pub choose : Option Mapping → String → Option Chosen → Result (Option Chosen)
choose none group resolved = ok resolved
choose (some m) group none = ok (some (record { tenant = m.tenant; role = m.role; group = group }))
choose (some m) group (some c) =
    if c.tenant == m.tenant then ok (some c) else err trusted_header_auth

unfoldable pub choose_group : List String → Option Chosen → Result (Option Chosen)
choose_group [] resolved = ok resolved
choose_group (group ∷ groups) resolved =
    and_then (choose (get cognito_group_map group) group resolved) (choose_group groups)

abbrev or_unrecognized : Option Chosen → Result Chosen
or_unrecognized none = err trusted_header_auth
or_unrecognized (some c) = ok c

header_identity : String → String → String → Chosen → Identity
header_identity sub username email c = record {
  tenant = c.tenant;
  role = c.role;
  group = c.group;
  username = some (if truthy username then username else sub);
  email = if truthy email then some email else none;
  sub = some sub;
  user_id = some sub;
  profile_complete = true;
  first_login = none;
  password_reset_done = false;
}

chosen_of : List String → Result Chosen
unfolding choose_group
chosen_of groups = and_then (choose_group groups none) or_unrecognized

-- What the identity headers say, once the secret has been checked.
read_headers : Config → Request → Result Identity
unfolding trusted_groups chosen_of header_identity
read_headers config request =
    let sub = strip (or_empty (request.header config.api_gw_sub_header_name)) in
    let username = strip (or_empty (request.header config.api_gw_username_header_name)) in
    let email = strip (or_empty (request.header config.api_gw_email_header_name)) in
    let raw = strip (or_empty (request.header config.api_gw_groups_header_name)) in
    let read =
      and_then (chosen_of (trusted_groups raw))
        (λ (c : Chosen). ok (header_identity sub username email c)) in
    if truthy sub && truthy raw && nonempty (trusted_groups raw)
    then read
    else err trusted_header_auth

unfoldable pub resolve_trusted_header_identity : Config → Request → Result Identity
unfolding compare_digest check_secret read_headers
resolve_trusted_header_identity config request =
    and_then (check_secret config request)
      (λ same. if same then read_headers config request else err trusted_header_auth)

-- `Authorization: Bearer …` gives the token, or else the cookie.
abbrev bearer_or_cookie : Option String → Option String → Option String
bearer_or_cookie none cookie = cookie
bearer_or_cookie (some token) cookie = some token

bearer_token : Request → Option String
bearer_token request =
    bearer_or_cookie (after_prefix "Bearer " (or_empty (request.header "Authorization")))
      (get request.cookies "cognito_access_token")

abbrev enrich : Identity → Identity
enrich i = record i { user_id = or_else i.sub i.username; profile_complete = true }

-- `except InvalidTokenError: return None`
abbrev none_if_invalid : Result Identity → Result (Option Identity)
none_if_invalid (ok i) = ok (some (enrich i))
none_if_invalid (err invalid_token) = ok none
none_if_invalid (err e) = err e

unfoldable pub resolve_bearer_jwt_identity : Config → Jwt → ℕ → Request → Result (Option Identity)
unfolding bearer_token
resolve_bearer_jwt_identity config lib now request =
    if truthy? (bearer_token request)
    then none_if_invalid (
        and_then (validate_jwt config lib now (or_empty (bearer_token request)))
          resolve_tenant_and_role)
    else ok none

-- `except _TrustedHeaderAuthError: return None`
abbrev none_if_untrusted : Result Identity → Result (Option Identity)
none_if_untrusted (ok i) = ok (some i)
none_if_untrusted (err trusted_header_auth) = ok none
none_if_untrusted (err e) = err e

from_headers : Config → Request → Result (Option Identity)
from_headers config request =
    if config.api_gateway_trusted_headers_enabled
    then none_if_untrusted (resolve_trusted_header_identity config request)
    else ok none

abbrev or_from_headers : Config → Request → Option Identity → Result (Option Identity)
or_from_headers config request (some i) = ok (some i)
or_from_headers config request none = from_headers config request

-- The session first, then a token, then the headers of the gateway.
from_session : Config → Jwt → ℕ → Request → Option Identity → Result (Option Identity)
unfolding from_headers
from_session config lib now request (some i) = ok (some i)
from_session config lib now request none =
    and_then (resolve_bearer_jwt_identity config lib now request) (or_from_headers config request)

unfoldable pub resolve_identity : Config → Jwt → ℕ → Request → Session → Result (Option Identity)
unfolding from_session
resolve_identity config lib now request session =
    from_session config lib now request session.identity
