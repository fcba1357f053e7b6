-- ===== src/Auth.antt =====
-- Flask app/tenant-saas-app-fixed/tenant-saas-app/auth.py: tokens validated, and tenant and role
-- resolved from their groups. PyJWT is a parameter.
pub mod Resolve
use secure_multi_tenant_saas.Prelude.{
  ℕ, ◌*◌, String, Bool, true, false, Option, none, some, List, [], ◌∷◌, ◌||◌, ◌==◌, ltb, get_or,
  or_else, if◌then◌else◌,
}
use secure_multi_tenant_saas.Prelude.Dict.{get}
use secure_multi_tenant_saas.Prelude.Exec.{Result, ok, err, and_then, invalid_token}
use secure_multi_tenant_saas.Config.{Config, Mapping, cognito_group_map}
use secure_multi_tenant_saas.Web.{Identity}

-- The claims of a decoded token that the program reads; `exp` is in seconds.
pub record Claims : Type 0 where
  pub groups : List String
  pub cognito_username : Option String
  pub username : Option String
  pub email : Option String
  pub sub : Option String
  pub token_use : Option String
  pub exp : Option ℕ

-- `jwt.decode`: `none` is a `PyJWTError`. The second takes the key from the JWKS client, and the
-- audience and issuer from the settings.
pub record Jwt : Type 0 where
  pub decode_unverified : String → Option Claims
  pub decode_verified : Config → String → Option Claims

abbrev pub microseconds : ℕ
microseconds = 1000000

-- `claims.get("token_use") in ("id", "access")`
abbrev has_known_use : Option String → Bool
has_known_use none = false
has_known_use (some u) = u == "id" || u == "access"

or_invalid : Option Claims → Result Claims
or_invalid none = err invalid_token
or_invalid (some claims) = ok claims

check_claims : ℕ → Claims → Result Claims
check_claims now claims =
    if has_known_use claims.token_use
    then if ltb (get_or claims.exp 0 * microseconds) now then err invalid_token else ok claims
    else err invalid_token

-- `now` is `time.time()`, in microseconds.
unfoldable pub validate_jwt : Config → Jwt → ℕ → String → Result Claims
unfolding or_invalid check_claims
validate_jwt config lib now token =
    if config.demo_mode
    then or_invalid (lib.decode_unverified token)
    else and_then (or_invalid (lib.decode_verified config token)) (check_claims now)

-- `if mapping: return …`, in a loop over the groups.
abbrev pick_first : String → Option Mapping → Option (String × Mapping) → Option (String × Mapping)
pick_first group none rest = rest
pick_first group (some mapping) rest = some (group, mapping)

-- The loop of `resolve_tenant_and_role`: the first group that the map knows.
unfoldable pub first_known : List String → Option (String × Mapping)
first_known [] = none
first_known (group ∷ groups) = pick_first group (get cognito_group_map group) (first_known groups)

identity_of : Claims → Option (String × Mapping) → Result Identity
identity_of claims none = err invalid_token
identity_of claims (some (group, mapping)) = ok (record {
  tenant = mapping.tenant;
  role = mapping.role;
  group = group;
  username = or_else claims.cognito_username claims.username;
  email = claims.email;
  sub = claims.sub;
  user_id = none;
  profile_complete = false;
  first_login = none;
  password_reset_done = false;
})

unfoldable pub resolve_tenant_and_role : Claims → Result Identity
unfolding first_known identity_of
resolve_tenant_and_role claims = identity_of claims (first_known claims.groups)
