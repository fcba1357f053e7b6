-- ===== src/Rds/Service/Spec.antt =====
-- rds_service.py: what a write means for the rows of the tables, whatever holds them.
use secure_multi_tenant_saas.Prelude.{
  String, true, false, Option, none, some, ◌&&◌, ◌==◌, if◌then◌else◌,
}
use secure_multi_tenant_saas.Prelude.Dict.{Dict}
use secure_multi_tenant_saas.Rds.Row.{UserRow, editable_fields, update_row}
use secure_multi_tenant_saas.Rds.Demo.{new_row}
use secure_multi_tenant_saas.Rds.Demo.Isolation.{
  Write, upsert, create, delete, enable, password_changed, tenant_of,
}
use secure_multi_tenant_saas.Rds.Sql.{insert_fields}
use secure_multi_tenant_saas.Rds.Sql.Schema.{Rows, map_row, column_defaults, set_columns}

-- What depends on where the rows are: the key that a row is kept under, for its identifier, the
-- fields that nobody gives a new row, and the row of a profile that is saved for the first time.
pub record Fresh : Type 0 where
  pub key : String → String
  pub blank : UserRow
  pub first_profile : Dict String → (user_id role : String) → UserRow

abbrev pub user_of : Write → String
user_of (upsert _ id _ _) = id
user_of (create _ id _ _ _) = id
user_of (delete _ id _) = id
user_of (enable _ id _) = id
user_of (password_changed _ id _) = id

abbrev pub saved : UserRow → Dict String → Option UserRow → UserRow
saved first fields none = first
saved first fields (some row) = update_row fields row

-- The row that a write leaves in place of the one it finds.
unfoldable pub written : Fresh → Write → Option UserRow → Option UserRow
written fresh (upsert _ id fields role) o =
    let edited = editable_fields fields in
    some (saved (fresh.first_profile edited id role) edited o)
written fresh (create _ id username email role) o = some (record fresh.blank {
  user_id = id;
  username = username;
  email = email;
  role = role;
  enabled = true;
})
written fresh (delete _ _ true) o = none
written fresh (delete _ _ false) o = map_row (λ row. record row { enabled = false }) o
written fresh (enable _ _ enabled) o = map_row (λ row. record row { enabled = enabled }) o
written fresh (password_changed _ _ today) o =
    map_row (λ row. record row { password_last_changed = today; first_login = false }) o

-- It is the row of one user of one tenant; all others stay.
unfoldable pub specified : Fresh → Write → Rows → Rows
unfolding written
specified fresh w rows t j =
    if tenant_of w == t && fresh.key (user_of w) == j then written fresh w (rows t j) else rows t j

-- In memory.
abbrev pub in_memory : Fresh
in_memory = record {
  key = λ id. id;
  blank = record column_defaults { profile_image = none; password_last_changed = "-" };
  first_profile = λ fields user_id role. update_row fields (new_row user_id fields role);
}

-- In the database, where the collation gives the keys.
abbrev pub in_tables : (String → String) → Fresh
in_tables weight = record {
  key = weight;
  blank = column_defaults;
  first_profile =
      λ fields user_id role. set_columns (insert_fields fields user_id role) column_defaults;
}
