-- ===== src/Rds/Row.antt =====
-- rds_service.py: a user's record, the fields that a profile may change, and the list of tenants.
use secure_multi_tenant_saas.Prelude.{
  String, ◌≡◌, refl, ◌∙◌, Bool-cases, inl, inr, Bool, true, arith, Option, none, some, List, [],
  ◌∷◌, ◌==◌, any_of, truthy, if◌then◌else◌,
}
use secure_multi_tenant_saas.Prelude.Dict.{Dict, get}
use secure_multi_tenant_saas.Prelude.Exec.{Result, ok, err, value_error}

-- A key that a record lacks is `none`.
pub record UserRow : Type 0 where
  pub user_id : String
  pub username : String
  pub email : String
  pub role : String
  pub phone : String
  pub department : String
  pub profile_image : Option String
  pub enabled : Bool
  pub password_last_changed : String
  pub first_login : Bool

abbrev pub tenant_table_whitelist : Dict String
tenant_table_whitelist = ("TenantA", "TenantA") ∷ ("TenantB", "TenantB") ∷ []

abbrev or_disallowed : Option String → Result String
or_disallowed none = err value_error
or_disallowed (some table) = if truthy table then ok table else err value_error

unfoldable pub table_for_tenant : String → Result String
table_for_tenant tenant = or_disallowed (get tenant_table_whitelist tenant)

abbrev pub editable_profile_fields : List String
editable_profile_fields = "username" ∷ "email" ∷ "phone" ∷ "department" ∷ "profile_image" ∷ []

-- `k in _EDITABLE_PROFILE_FIELDS`
unfoldable pub is_editable : String → Bool
is_editable k = any_of (λ name. k == name) editable_profile_fields

-- `{k: v for k, v in fields.items() if k in _EDITABLE_PROFILE_FIELDS}`
unfoldable pub editable_fields : Dict String → Dict String
unfolding is_editable
editable_fields [] = []
editable_fields ((k, v) ∷ fields) =
    let rest = editable_fields fields in if is_editable k then (k, v) ∷ rest else rest

-- `record[k] = v`. A flag that is set to a text is on unless the text is empty; a key that no
-- record has changes nothing that is kept here.
unfoldable pub set_field : String → String → UserRow → UserRow
set_field k v row =
    if k == "username"
    then record row { username = v }
    else if k == "email"
    then record row { email = v }
    else if k == "phone"
    then record row { phone = v }
    else if k == "department"
    then record row { department = v }
    else if k == "profile_image"
    then record row { profile_image = some v }
    else if k == "userId"
    then record row { user_id = v }
    else if k == "role"
    then record row { role = v }
    else if k == "enabled"
    then record row { enabled = truthy v }
    else if k == "password_last_changed"
    then record row { password_last_changed = v }
    else if k == "first_login"
    then record row { first_login = truthy v }
    else row

-- `record.update(fields)`
unfoldable pub update_row : Dict String → UserRow → UserRow
unfolding set_field
update_row [] row = row
update_row ((k, v) ∷ fields) row = update_row fields (set_field k v row)

-- A change of a profile leaves the rest of a record alone.
pub record KeepsAccount (row row' : UserRow) : Type 0 where
  pub user_id : row'.user_id ≡ row.user_id
  pub role : row'.role ≡ row.role
  pub enabled : row'.enabled ≡ row.enabled
  pub password_last_changed : row'.password_last_changed ≡ row.password_last_changed
  pub first_login : row'.first_login ≡ row.first_login

set_field-KeepsAccount :
    (k v : String) (row : UserRow) → is_editable k ≡ true → KeepsAccount row (set_field k v row)
unfolding set_field is_editable
set_field-KeepsAccount k v row h = ground arith

KeepsAccount-trans : (a b c : UserRow) → KeepsAccount a b → KeepsAccount b c → KeepsAccount a c
KeepsAccount-trans a b c h k = record {
  user_id = k.user_id ∙ h.user_id;
  role = k.role ∙ h.role;
  enabled = k.enabled ∙ h.enabled;
  password_last_changed = k.password_last_changed ∙ h.password_last_changed;
  first_login = k.first_login ∙ h.first_login;
}

pub update_row-KeepsAccount :
    (fields : Dict String) (row : UserRow)
    → KeepsAccount row (update_row (editable_fields fields) row)
unfolding update_row editable_fields
update_row-KeepsAccount [] row = record {
  user_id = refl;
  role = refl;
  enabled = refl;
  password_last_changed = refl;
  first_login = refl;
}
update_row-KeepsAccount ((k, v) ∷ fields) row = elim (Bool-cases (is_editable k)) [
  | inl kept ↦ rw kept (
      KeepsAccount-trans row (set_field k v row) _ (set_field-KeepsAccount k v row kept)
        (update_row-KeepsAccount fields (set_field k v row)))
  | inr dropped ↦ rw dropped (update_row-KeepsAccount fields row)
]
