-- ===== src/Tests/Users.antt =====
-- Tests of rds_service.py in demo mode.
use secure_multi_tenant_saas.Prelude.{
  ◌+◌, ◌≤◌, String, ◌≡◌, refl, true, false, none, some, List, [], ◌∷◌, ◌==◌, arith, length,
}
use secure_multi_tenant_saas.Prelude.Dict.{Dict, get, values}
use secure_multi_tenant_saas.Prelude.Exec.{ok}
use secure_multi_tenant_saas.Rds.Row.{UserRow, KeepsAccount, table_for_tenant}
use secure_multi_tenant_saas.Rds.Demo.{
  Db, users_of, get_user_by_id, list_users, matching_rows, upsert_user_profile,
}
use secure_multi_tenant_saas.Rds.Demo.Isolation.{Write, create, delete, enable, apply_all}
use secure_multi_tenant_saas.Rds.Demo.Profile.{
  base_row, upsert-KeepsAccount, IsValid, apply_all-IsValid,
}
use secure_multi_tenant_saas.Rds.Demo.Pages.{first_pages, list_users_pages}

abbrev bo : UserRow
bo = record {
  user_id = "u2";
  username = "bo";
  email = "bo@b.test";
  role = "user";
  phone = "";
  department = "";
  profile_image = none;
  enabled = true;
  password_last_changed = "-";
  first_login = true;
}

abbrev db : Db
db = ("TenantA", []) ∷ ("TenantB", ("u2", bo) ∷ []) ∷ []

abbrev writes : List Write
writes =
    create "TenantA" "u1" "ann" "ann@a.test" "admin"
    ∷ delete "TenantA" "u2" true
    ∷ enable "TenantA" "u1" false
    ∷ []

known : table_for_tenant "TenantB" ≡ ok "TenantB"
unfolding table_for_tenant get
known = refl

-- Fields that a profile may not change are sent along.
abbrev sent : Dict String
sent = ("phone", "555") ∷ ("role", "admin") ∷ ("enabled", "no") ∷ []

upsert-KeepsAccount_example :
    let db' = upsert_user_profile db "TenantB" "u2" sent "user" in
    ((row : UserRow) × (get_user_by_id db' "TenantB" "u2" ≡ ok (some row))
      × KeepsAccount (base_row db "TenantB" "u2" sent "user") row)
    × ((j : String)
        → ("u2" == j) ≡ false
        → get_user_by_id db' "TenantB" j ≡ get_user_by_id db "TenantB" j)
upsert-KeepsAccount_example = upsert-KeepsAccount db "TenantB" "u2" sent "user" known

abbrev fresh : Db
fresh = []

fresh-IsValid : IsValid fresh
unfolding get
fresh-IsValid = record { keyed = λ t id row e. cc; unique = λ t. tt }

apply_all-IsValid_example : IsValid (apply_all writes fresh)
apply_all-IsValid_example = apply_all-IsValid writes fresh fresh-IsValid

list_users_pages_example :
    let p = list_users db "TenantB" "b" 1 10 in
    (first_pages db "TenantB" "b" 10 p.total_pages
      ≡ matching_rows "b" (values (users_of db "TenantB")))
    × (length p.rows ≤ 10)
    × (p.total ≡ length (matching_rows "b" (values (users_of db "TenantB"))))
    × (p.active + p.disabled ≡ length (values (users_of db "TenantB")))
list_users_pages_example = list_users_pages db "TenantB" "b" 10 (omega arith) 1
