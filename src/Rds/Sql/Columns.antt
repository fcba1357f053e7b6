-- ===== src/Rds/Sql/Columns.antt =====
-- rds_service.py and database.py: the columns that the statements set, and the rows of a user.
use secure_multi_tenant_saas.Prelude.{
  String, ◌≡◌, refl, ap, ◌∙◌, true, false, Option, none, some, [], ◌∷◌, ◌==◌, eq_iff, arith,
}
use secure_multi_tenant_saas.Prelude.Dict.{Dict, get, put, get-put}
use secure_multi_tenant_saas.Prelude.Exec.{ok}
use secure_multi_tenant_saas.Rds.Row.{UserRow, table_for_tenant, update_row, set_field}
use secure_multi_tenant_saas.Rds.Sql.{
  Value, text, flag, as_texts, set_missing, setdefault, insert_fields,
}
use secure_multi_tenant_saas.Rds.Sql.Schema.{set_column, set_columns, key_of, text_of}

-- The table of a tenant bears the tenant's name.
pub table-tenant : (t : String) {table : String} → table_for_tenant t ≡ ok table → table ≡ t
unfolding table_for_tenant get
table-tenant t h = ground (arith, eq_iff "TenantA" t, eq_iff "TenantB" t)

-- Columns of texts are set like the fields of a record.
pub set_columns-texts :
    (fields : Dict String) (row : UserRow)
    → set_columns (as_texts fields) row ≡ update_row fields row
unfolding set_columns set_column update_row
set_columns-texts [] row = refl
set_columns-texts ((k, v) ∷ fields) row = set_columns-texts fields (set_field k v row)

get-set_missing :
    (o : Option Value) (columns : Dict Value) (k : String) (v : Value) (j : String)
    → (k == j) ≡ false
    → get (set_missing o columns k v) j ≡ get columns j
get-set_missing none columns k v j h = rw (get-put columns k v j, h) refl
get-set_missing (some w) columns k v j h = refl

-- A new row has the identifier for its key.
pub key_of-insert_fields :
    (fields : Dict String) (id role : String) → key_of (insert_fields fields id role) ≡ id
unfolding insert_fields
key_of-insert_fields fields id role =
    let named = put (as_texts fields) "userId" (text id) in
    let with_name = setdefault named "username" (text id) in
    let with_email = setdefault with_name "email" (text "") in
    let with_role = put with_email "role" (text role) in
    let found : get (insert_fields fields id role) "userId" ≡ some (text id) =
      get-set_missing (get with_role "enabled") with_role "enabled" (flag true) "userId" refl
      ∙ get-put with_email "role" (text role) "userId"
      ∙ get-set_missing (get with_name "email") with_name "email" (text "") "userId" refl
      ∙ get-set_missing (get named "username") named "username" (text id) "userId" refl
      ∙ get-put (as_texts fields) "userId" (text id) "userId" in
    ap text_of found
