-- ===== src/Tests/Writes.antt =====
-- Tests of rds_service.py: a profile that is saved, and read again.
use secure_multi_tenant_saas.Prelude.{◌≡◌, refl, true, none, some, [], ◌∷◌}
use secure_multi_tenant_saas.Prelude.Text.{strip}
use secure_multi_tenant_saas.Prelude.Dict.{HasUniqueKeys, get, put}
use secure_multi_tenant_saas.Prelude.Exec.{ok}
use secure_multi_tenant_saas.Secrets.{Vault, get_secret}
use secure_multi_tenant_saas.Rds.Row.{UserRow, table_for_tenant, editable_fields}
use secure_multi_tenant_saas.Rds.Demo.Isolation.{Write, upsert, tenant_of}
use secure_multi_tenant_saas.Rds.Demo.{users_of}
use secure_multi_tenant_saas.Rds.Sql
use secure_multi_tenant_saas.Rds.Sql.{save_row, in_transaction, get_connection}
use secure_multi_tenant_saas.Rds.Sql.Schema.{effect}
use secure_multi_tenant_saas.Rds.Service.{Store, upsert_user_profile, get_user_by_id}
use secure_multi_tenant_saas.Rds.Service.Spec.{written}
use secure_multi_tenant_saas.Rds.Service.Reading.{perform-read_back}
use secure_multi_tenant_saas.Rds.Service.Refinement.{
  rows_of, fresh_in, Refines, perform, perform-Refines,
}
use secure_multi_tenant_saas.Tests.Fixtures.{live}
use secure_multi_tenant_saas.Tests.Database.{Base, driver, fetch, loads, folded, driver-IsDriver}

abbrev pub vault : Vault Base
vault = record { cache = []; services = record { committed = λ t j. none; pending = λ t j. none } }

abbrev pub store : Store Base
store = record { demo_db = []; vault = vault }

-- Ann saves her profile for the first time.
abbrev save : Write
save = upsert "TenantA" "U1" (("username", "Ann") ∷ ("email", "ann@a.test") ∷ []) "admin"

allowed : table_for_tenant (tenant_of save) ≡ ok "TenantA"
unfolding table_for_tenant get
allowed = refl

unique : HasUniqueKeys (users_of store.demo_db (tenant_of save))
unfolding get
unique = tt

perform-Refines_example :
    Refines live
      (λ s. s.committed)
      folded
      save
      store
      (perform loads live fetch 5000000 driver save store)
perform-Refines_example =
    perform-Refines loads live fetch 5000000 driver (λ s. s.committed) (λ s. s.pending)
      driver-IsDriver save store allowed unique

-- The row of a first profile.
abbrev first : UserRow
first = record {
  user_id = "U1";
  username = "Ann";
  email = "ann@a.test";
  role = "admin";
  phone = "";
  department = "";
  profile_image = some "";
  enabled = true;
  password_last_changed = "";
  first_login = true;
}

abbrev after_save : Store Base
after_save = (perform loads live fetch 5000000 driver save store).1

performed : (perform loads live fetch 5000000 driver save store).0 ≡ ok tt
unfolding perform upsert_user_profile save_row table_for_tenant get in_transaction get_secret strip
    effect folded
performed = refl

shown :
    (get_user_by_id loads live fetch 5000000 driver "" "TenantA" "U1" after_save).0
    ≡ ok (some first)
unfolding perform upsert_user_profile get_user_by_id save_row table_for_tenant get
    Sql.get_user_by_id get_connection get_secret in_transaction strip effect folded put
    editable_fields
shown = refl

perform-read_back_example :
    some first
    ≡ written
        (fresh_in folded live)
        save
        (rows_of live (λ s. s.committed) store "TenantA" (folded "U1"))
perform-read_back_example =
    perform-read_back loads live fetch 5000000 driver (λ s. s.committed) (λ s. s.pending)
      driver-IsDriver save store (some first) allowed unique refl performed shown
