-- ===== src/Config/Defaults.antt =====
-- What the settings are whatever the environment says.
use secure_multi_tenant_saas.Prelude.{
  String, Option, ◌≡◌, refl, true, List, [], ◌∷◌, All, truthy, keep_if, arith, map, get_or,
}
use secure_multi_tenant_saas.Prelude.Dict.{Dict, get}
use secure_multi_tenant_saas.Prelude.Text.{strip, split_char}
use secure_multi_tenant_saas.Config.{PlanName, config_of, or_default, prefixes}

keep_if-truthy : (xs : List String) → All (λ s. truthy s ≡ true) (keep_if truthy xs)
keep_if-truthy [] = tt
keep_if-truthy (x ∷ xs) = ground (arith, keep_if-truthy xs)

truthy-or_default : (s d : String) → truthy d ≡ true → truthy (or_default s d) ≡ true
unfolding or_default
truthy-or_default String.[] d h = h
truthy-or_default (String.◌∷◌ c s) d h = refl

prefixes-truthy : (s : String) → All (λ p. truthy p ≡ true) (prefixes s)
unfolding prefixes
prefixes-truthy s = keep_if-truthy (map strip (split_char b',' s))

-- Whatever the environment holds, the AWS region and the name of the secret are not blank, and no
-- prefix of the JSON routes is.
pub config_of_not_blank :
    (loads : String → Option (Dict PlanName)) (environ : Dict String)
    → let c = config_of loads environ in
      (truthy c.aws_region ≡ true)
      × (truthy c.secrets_manager_secret_name ≡ true)
      × All (λ s. truthy s ≡ true) c.json_api_route_prefixes
unfolding config_of
config_of_not_blank loads environ = (
  truthy-or_default (strip (get_or (get environ "AWS_REGION") "us-east-1")) "us-east-1" refl,
  truthy-or_default
      (strip (get_or (get environ "SECRETS_MANAGER_SECRET_NAME") "saas/secrets/rds/31"))
      "saas/secrets/rds/31" refl,
  prefixes-truthy (get_or (get environ "JSON_API_ROUTE_PREFIXES") "/api/v1/billing/"),
)
