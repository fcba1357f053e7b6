-- ===== src/Tests/Secrets.antt =====
-- Tests of secret_service.py.
use secure_multi_tenant_saas.Prelude.{ℕ, ◌+◌, String, ◌≡◌, refl, Option, none, some, [], ◌∷◌, arith}
use secure_multi_tenant_saas.Prelude.Text.{strip}
use secure_multi_tenant_saas.Prelude.Dict.{Dict, get, put}
use secure_multi_tenant_saas.Prelude.Exec.{ok}
use secure_multi_tenant_saas.Secrets.{Vault, GetSecretValue, get_secret}
use secure_multi_tenant_saas.Secrets.Cache.{get_secret_cached}
use secure_multi_tenant_saas.Tests.Fixtures.{live}

abbrev bundle : Dict String
bundle = ("db_username", "svc") ∷ []

abbrev loads : String → Option (Dict String)
loads s = some bundle

-- The state counts the calls.
abbrev fetch : GetSecretValue ℕ
fetch region name calls = (ok (some "{}"), calls + 1)

abbrev empty : Vault ℕ
empty = record { cache = []; services = 0 }

abbrev filled : Vault ℕ
filled = record {
  cache = ("secret", record { value = bundle; fetched_at = 1000000 }) ∷ [];
  services = 1;
}

first_call : get_secret loads live fetch 1000000 none empty ≡ (ok bundle, filled)
unfolding get_secret strip get put
first_call = refl

found : get filled.cache "secret" ≡ some (record { value = bundle; fetched_at = 1000000 })
unfolding get
found = refl

get_secret_cached_example : get_secret loads live fetch 300000000 none filled ≡ (ok bundle, filled)
get_secret_cached_example =
    get_secret_cached loads live fetch 1000000 300000000 none empty filled bundle
      (record { value = bundle; fetched_at = 1000000 }) first_call found (omega arith)
