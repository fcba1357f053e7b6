-- ===== src/Rds/Demo/Written.antt =====
-- rds_service.py in demo mode: each write does to the users in memory what it means.
use secure_multi_tenant_saas.Prelude.{
  String, ◌≡◌, refl, sym, ap, ◌∙◌, true, false, Option, none, some, ◌&&◌, ◌==◌, Bool-cases, inl,
  inr, eq_iff, get_or, arith, if◌then◌else◌,
}
use secure_multi_tenant_saas.Prelude.Dict.{
  Dict, HasUniqueKeys, get, put, pop, get-put, get-pop_ne, get-pop_self,
}
use secure_multi_tenant_saas.Rds.Row.{UserRow, editable_fields, update_row}
use secure_multi_tenant_saas.Rds.Demo.{
  Db, users_of, edit_found, remove_from, new_row, upsert_user_profile, create_user_record,
  delete_user_record, set_user_enabled, mark_password_changed,
}
use secure_multi_tenant_saas.Rds.Demo.Isolation.{
  Write, upsert, create, delete, enable, password_changed, tenant_of, apply, users_of-put,
}
use secure_multi_tenant_saas.Rds.Sql.Schema.{Rows, map_row}
use secure_multi_tenant_saas.Rds.Service.Spec.{saved, written, specified, in_memory}

-- The rows in memory.
abbrev pub lookup : Db → Rows
lookup db t j = get (users_of db t) j

-- One user's row is put in place of what was there.
lookup-put :
    (db : Db) (t id : String) (row : UserRow) (u j : String)
    → lookup (put db t (put (users_of db t) id row)) u j
      ≡ (if t == u && id == j then some row else lookup db u j)
lookup-put db t id row u j = elim (Bool-cases (t == u)) [
  | inl same ↦ rw (users_of-put, same, get-put, sym ((eq_iff t u).0 same)) refl
  | inr other ↦ rw (users_of-put, other) refl
]

lookup-pop :
    (db : Db) (t id : String) (u j : String)
    → HasUniqueKeys (users_of db t)
    → lookup (put db t (pop (users_of db t) id)) u j
      ≡ (if t == u && id == j then none else lookup db u j)
lookup-pop db t id u j h = elim (Bool-cases (t == u)) [
  | inl same ↦ elim (Bool-cases (id == j)) [
    | inl here ↦
        rw (users_of-put, same, here, sym ((eq_iff id j).0 here))
          (get-pop_self (users_of db t) id h)
    | inr there ↦
        rw (users_of-put, same, there, get-pop_ne (users_of db t) id j there, (eq_iff t u).0 same)
          refl
  ]
  | inr other ↦ rw (users_of-put, other) refl
]

lookup-here :
    (db : Db) (t id u j : String) → (t == u && id == j) ≡ true → lookup db u j ≡ lookup db t id
lookup-here db t id u j here = ground (arith, eq_iff t u, eq_iff id j)

-- The row that is found is edited.
edit_found-written :
    (f : UserRow → UserRow) (db : Db) (t id : String) (o : Option UserRow) (u j : String)
    → lookup db t id ≡ o
    → lookup (edit_found f db t (users_of db t) id o) u j
      ≡ (if t == u && id == j then map_row f (lookup db u j) else lookup db u j)
unfolding edit_found
edit_found-written f db t id none u j e = ground (arith, lookup-here db t id u j)
edit_found-written f db t id (some row) u j e =
    rw (lookup-put db t id (f row) u j) (ground (arith, lookup-here db t id u j))

remove_from-written :
    (db : Db) (t id : String) (o : Option (Dict UserRow)) (u j : String)
    → get db t ≡ o
    → HasUniqueKeys (users_of db t)
    → lookup (remove_from db t id o) u j ≡ (if t == u && id == j then none else lookup db u j)
unfolding remove_from get
remove_from-written db t id none u j e h =
    let absent : lookup db t id ≡ none = rw e refl in ground (arith, lookup-here db t id u j)
remove_from-written db t id (some users) u j e h =
    let same : users_of db t ≡ users = rw e refl in
    ap (λ us. lookup (put db t (pop us id)) u j) (sym same) ∙ lookup-pop db t id u j h

-- A profile that is saved starts from the row that is there, or from a new one.
upsert-base :
    (o : Option UserRow) (fields : Dict String) (id role : String)
    → update_row fields (get_or o (new_row id fields role))
      ≡ saved (in_memory.first_profile fields id role) fields o
upsert-base none fields id role = refl
upsert-base (some row) fields id role = refl

-- Every write leaves in memory the rows that it means.
pub apply-written :
    (w : Write) (db : Db) (t j : String)
    → HasUniqueKeys (users_of db (tenant_of w))
    → lookup (apply w db) t j ≡ specified in_memory w (lookup db) t j
unfolding apply specified written upsert_user_profile create_user_record delete_user_record
    set_user_enabled mark_password_changed
apply-written (upsert t id fields role) db u j h =
    let edited = editable_fields fields in
    rw (lookup-put db t id _ u j, upsert-base (lookup db t id) edited id role)
      (ground (arith, lookup-here db t id u j))
apply-written (create t id username email role) db u j h = lookup-put db t id _ u j
apply-written (delete t id true) db u j h = remove_from-written db t id (get db t) u j refl h
apply-written (delete t id false) db u j h = edit_found-written _ db t id _ u j refl
apply-written (enable t id enabled) db u j h = edit_found-written _ db t id _ u j refl
apply-written (password_changed t id today) db u j h = edit_found-written _ db t id _ u j refl
