-- ===== src/Secrets.antt =====
-- Flask app/tenant-saas-app-fixed/tenant-saas-app/services/secret_service.py. `loads` stands for
-- `json.loads` at an object of texts; Secrets Manager is a parameter.
pub mod Cache
use secure_multi_tenant_saas.Prelude.{
  ℕ, ◌-◌, ◌*◌, String, Bool, true, false, Option, none, some, List, [], ◌∷◌, truthy, truthy?,
  or_empty, ltb, if◌then◌else◌,
}
use secure_multi_tenant_saas.Prelude.Text.{strip}
use secure_multi_tenant_saas.Prelude.Dict.{Dict, get, put}
use secure_multi_tenant_saas.Prelude.Exec.{Exec, Result, ok, err, Error, value_error, and_then}
use secure_multi_tenant_saas.Config.{Config}
use secure_multi_tenant_saas.Auth.{microseconds}

pub record Cached : Type 0 where
  pub value : Dict String
  pub fetched_at : ℕ

-- `_cache`, and the state of the service.
pub record Vault (S : Type 0) : Type 0 where
  pub cache : Dict Cached
  pub services : S

abbrev pub cache_ttl : ℕ
cache_ttl = 300 * microseconds

abbrev pub demo_secrets : Dict String
demo_secrets =
    ("db_username", "demo_app_user")
    ∷ ("db_password", "demo-password-not-real")
    ∷ ("flask_secret_key", "demo-flask-secret-key-not-for-prod")
    ∷ ("cognito_app_client_secret", "")
    ∷ []

-- Is there an entry that is younger than the time to live?
abbrev pub is_fresh : ℕ → Option Cached → Bool
is_fresh now none = false
is_fresh now (some c) = ltb (now - c.fetched_at) cache_ttl

abbrev value_or_empty : Option Cached → Dict String
value_or_empty none = []
value_or_empty (some c) = c.value

-- The `SecretString` for a region and a name; it may be missing.
abbrev pub GetSecretValue : Type 0 → Type 0
GetSecretValue S = String → String → S → Result (Option String) × S

-- The name that is not given is the configured one.
abbrev pub name_or_default : Config → Option String → String
name_or_default config none = config.secrets_manager_secret_name
name_or_default config (some name) =
    if truthy name then name else config.secrets_manager_secret_name

module _ (loads : String → Option (Dict String)) where
  abbrev or_malformed : Option (Dict String) → Result (Dict String)
  or_malformed none = err value_error
  or_malformed (some d) = ok d

  abbrev pub decoded : Option String → Result (Dict String)
  decoded raw = if truthy? raw then or_malformed (loads (or_empty raw)) else ok []

  module _ {S : Type 0} (config : Config) (fetch : GetSecretValue S) (now : ℕ) where
    abbrev pub remember : String → Result (Dict String) → S → Exec (Vault S) (Dict String)
    remember name (ok value) s v = (
      ok value,
      record v {
        cache = put v.cache name (record { value = value; fetched_at = now });
        services = s;
      },
    )
    remember name (err e) s v = (err e, record v { services = s })

    -- `_get_secrets_client`, and what is done with the client of the region.
    abbrev pub with_secrets_client : {A : Type 0} → Exec (Vault S) A → Exec (Vault S) A
    with_secrets_client use_client v =
        if truthy (strip config.aws_region) then use_client v else (err value_error, v)

    ask : String → Exec (Vault S) (Dict String)
    ask name v =
        let (raw, s) = fetch (strip config.aws_region) name v.services in
        with_secrets_client (remember name (and_then raw decoded) s) v

    unfoldable pub get_secret : Option String → Exec (Vault S) (Dict String)
    unfolding ask
    get_secret secret_name v =
        let name = name_or_default config secret_name in
        let asked = ask name v in
        if truthy name
        then if is_fresh now (get v.cache name)
          then (ok (value_or_empty (get v.cache name)), v)
          else if config.demo_mode
          then remember name (ok demo_secrets) v.services v
          else asked
        else (err value_error, v)
