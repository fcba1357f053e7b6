-- ===== src/Tests/Access.antt =====
-- Tests of the settings, tokens, headers, decorators, passwords and the user pool.
use secure_multi_tenant_saas.Prelude.{
  ◌∷◌, String, Char, Bool, true, false, ◌≡◌, refl, arith, none, some, [], ◌↔◌, inr, eqb,
  if◌then◌else◌,
}
use secure_multi_tenant_saas.Prelude.Text.{has_char, is_ascii, strip, split_char, remove_char}
use secure_multi_tenant_saas.Prelude.Dict.{get}
use secure_multi_tenant_saas.Prelude.Exec.{ok}
use secure_multi_tenant_saas.Web.{redirect}
use secure_multi_tenant_saas.Auth.{Claims, resolve_tenant_and_role}
use secure_multi_tenant_saas.Auth.Resolve.{Answers, IsScoped, resolve_tenant_and_role-Answers}
use secure_multi_tenant_saas.Decorators.Identify.{
  resolve_trusted_header_identity, resolve_identity, choose,
}
use secure_multi_tenant_saas.Decorators.Identify.Headers.{IsVouched, trusted_header-IsVouched}
use secure_multi_tenant_saas.Decorators.Identify.Scope.{resolve_identity-IsScoped}
use secure_multi_tenant_saas.Decorators.Gate.{login_required, admin_required}
use secure_multi_tenant_saas.Decorators.Gate.Access.{
  Guarded, resolved, login_required-Guarded, admin_required-Guarded,
}
use secure_multi_tenant_saas.Decorators.Gate.Expiry.{IsExpired, admin_required_skips_expiry}
use secure_multi_tenant_saas.Cognito.UserPool.{
  Client, Pool, Created, group_name, create_cognito_user,
}
use secure_multi_tenant_saas.Cognito.UserPool.Groups.{ResolvesTo, create_cognito_user-ResolvesTo}
use secure_multi_tenant_saas.Password.{
  any_char, is_lower, is_upper, is_ascii_digit, password_errors,
}
use secure_multi_tenant_saas.Password.Rules.{IsStrong, password_errors-eq-nil_iff}
use secure_multi_tenant_saas.Password.Temporary.{
  Draw, attempt, is_temp_symbol, is_accepted, generate_temp_password, IsUsable,
  generate_temp_password-IsUsable,
}
use secure_multi_tenant_saas.Tests.Fixtures.{
  live, claims, jwt, deps, ann, request, signed_in, start, view,
}

resolve_tenant_and_role-Answers_example : Answers claims (resolve_tenant_and_role claims)
resolve_tenant_and_role-Answers_example = resolve_tenant_and_role-Answers claims

from_request : resolve_trusted_header_identity live request ≡ ok ann
unfolding resolve_trusted_header_identity is_ascii get strip split_char remove_char choose
from_request = refl

trusted_header-IsVouched_example : IsVouched live request ann
trusted_header-IsVouched_example = trusted_header-IsVouched live request ann from_request

from_signed_in : resolve_identity live jwt 0 request signed_in ≡ ok (some ann)
unfolding resolve_identity
from_signed_in = refl

resolve_identity-IsScoped_example : IsScoped ann
unfolding get
resolve_identity-IsScoped_example =
    resolve_identity-IsScoped live jwt 0 request signed_in ann refl from_signed_in

login_required-Guarded_example :
    Guarded
      (λ i. (resolved live deps request view start ≡ ok (some i)) × IsScoped i)
      view
      start
      (login_required live deps request view start)
unfolding get
login_required-Guarded_example = login_required-Guarded live deps request view start refl

admin_required-Guarded_example :
    Guarded
      (λ i. (resolved live deps request view start ≡ ok (some i)) × IsScoped i × (i.role ≡ "admin"))
      view
      start
      (admin_required live deps request view start)
unfolding get
admin_required-Guarded_example = admin_required-Guarded live deps request view start refl

expired : IsExpired live deps.now signed_in
expired = record {
  live = refl;
  expires_at = 4000000;
  expires = refl;
  nonzero = refl;
  past = omega arith;
  no_refresh = refl;
}

admin_required_skips_expiry_example :
    ((login_required live deps request view start).0 ≡ ok (redirect "auth_pages.login"))
    × ((login_required live deps request view start).1.session.identity ≡ none)
    × (admin_required live deps request view start ≡ view (record start { identity = some ann }))
admin_required_skips_expiry_example =
    admin_required_skips_expiry live deps request view start ann refl refl expired

abbrev no_digit : Char → Bool
no_digit c = false

password_errors-eq-nil_iff_example :
    (password_errors no_digit "Abcdefgh1!" "Abcdefgh1!" ≡ [])
    ↔ (IsStrong no_digit "Abcdefgh1!" × (◌≡◌ {A = String} "Abcdefgh1!" "Abcdefgh1!"))
password_errors-eq-nil_iff_example = password_errors-eq-nil_iff no_digit "Abcdefgh1!" "Abcdefgh1!"

-- The second attempt is the first to have all kinds of characters.
abbrev draw : Draw
draw n k =
    if eqb n 0
    then "a"
    else if eqb k 0
    then "!"
    else if eqb k 1
    then "7"
    else if eqb k 2
    then "Q"
    else "b"

second_accepted : is_accepted (attempt draw 1 0 14) ≡ true
unfolding is_accepted attempt any_char is_lower is_upper is_ascii_digit is_temp_symbol has_char
second_accepted = refl

generate_temp_password-IsUsable_example : IsUsable no_digit 14 (generate_temp_password 3 draw 14 0)
generate_temp_password-IsUsable_example =
    generate_temp_password-IsUsable draw no_digit 14 3 0 1 (omega arith) (omega arith)
      second_accepted

-- A pool that takes every call.
abbrev pub client : Client Bool
client = record {
  admin_create_user = λ username email temporary_password s. (ok tt, true);
  admin_add_user_to_group = λ username group s. (ok tt, s);
  admin_delete_user = λ username s. (ok tt, s);
  admin_enable_user = λ username s. (ok tt, s);
  admin_disable_user = λ username s. (ok tt, s);
  change_password = λ access_token previous_password proposed_password s. (ok tt, s);
}

abbrev created : Created
created = record {
  username = "bo";
  temp_password = "Abcdefgh1!";
  group = "TenantB_user";
  sub = none;
}

abbrev pool : Bool → Pool Bool
pool used = record { demo_users = []; services = used }

creates_bo :
    create_cognito_user live client "u2" "Abcdefgh1!" "bo" "bo@b.test" "TenantB" "user" (pool false)
    ≡ (ok created, pool true)
unfolding create_cognito_user group_name
creates_bo = refl

abbrev bo_claims : Claims
bo_claims = record claims { groups = "TenantB_user" ∷ [] }

create_cognito_user-ResolvesTo_example :
    ResolvesTo "TenantB" "user" (resolve_tenant_and_role bo_claims)
create_cognito_user-ResolvesTo_example =
    create_cognito_user-ResolvesTo live client "u2" "Abcdefgh1!" "bo" "bo@b.test" "TenantB" "user"
      (pool false) (pool true) created bo_claims (inr refl) (inr refl) creates_bo refl
