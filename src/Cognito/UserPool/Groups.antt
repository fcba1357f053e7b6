-- ===== src/Cognito/UserPool/Groups.antt =====
-- cognito_service.py: the group of a new user, against the map of groups.
use secure_multi_tenant_saas.Prelude.{String, ◌≡◌, refl, ap, ◌∙◌, ◌⊎◌, inl, inr, [], ◌∷◌, arith}
use secure_multi_tenant_saas.Prelude.Dict.{get}
use secure_multi_tenant_saas.Prelude.Exec.{Result, ok, err}
use secure_multi_tenant_saas.Config.{Config}
use secure_multi_tenant_saas.Web.{Identity}
use secure_multi_tenant_saas.Auth.{Claims, resolve_tenant_and_role}
use secure_multi_tenant_saas.Cognito.UserPool.{
  Pool, Client, Created, group_name, create_cognito_user,
}

abbrev pub IsTenant : String → Type 0
IsTenant t = (t ≡ "TenantA") ⊎ (t ≡ "TenantB")

abbrev pub IsRole : String → Type 0
IsRole r = (r ≡ "admin") ⊎ (r ≡ "user")

-- The claims of a token resolve to the tenant and the role.
abbrev pub ResolvesTo : String → String → Result Identity → Type 0
ResolvesTo tenant role (err e) = ⊥
ResolvesTo tenant role (ok i) = (i.tenant ≡ tenant) × (i.role ≡ role)

resolve-ResolvesTo :
    (tenant role : String) (claims : Claims)
    → IsTenant tenant
    → IsRole role
    → claims.groups ≡ group_name tenant role ∷ []
    → ResolvesTo tenant role (resolve_tenant_and_role claims)
unfolding resolve_tenant_and_role group_name get
resolve-ResolvesTo tenant role claims (inl t) (inl r) e = rw (e, t, r) (refl, refl)
resolve-ResolvesTo tenant role claims (inl t) (inr r) e = rw (e, t, r) (refl, refl)
resolve-ResolvesTo tenant role claims (inr t) (inl r) e = rw (e, t, r) (refl, refl)
resolve-ResolvesTo tenant role claims (inr t) (inr r) e = rw (e, t, r) (refl, refl)

module _ {S : Type 0} (config : Config) (client : Client S)
    (sub temp_password username email tenant role : String) where
  created-group :
      (p p' : Pool S) (c : Created)
      → create_cognito_user config client sub temp_password username email tenant role p
        ≡ (ok c, p')
      → c.group ≡ group_name tenant role
  unfolding create_cognito_user
  created-group p p' c h = ground arith

  -- A user who is created for a tenant and a role, in demo mode or in Cognito, and whose token then
  -- names just the group that was given, is resolved to that tenant and that role.
  pub create_cognito_user-ResolvesTo :
      (p p' : Pool S) (c : Created) (claims : Claims)
      → IsTenant tenant
      → IsRole role
      → create_cognito_user config client sub temp_password username email tenant role p
        ≡ (ok c, p')
      → claims.groups ≡ c.group ∷ []
      → ResolvesTo tenant role (resolve_tenant_and_role claims)
  create_cognito_user-ResolvesTo p p' c claims t r h e =
      resolve-ResolvesTo tenant role claims t r (e ∙ ap (λ g. g ∷ []) (created-group p p' c h))
