-- ===== src/Rds/Demo/Profile.antt =====
-- rds_service.py in demo mode: what a profile that is saved changes, and what every write keeps.
use secure_multi_tenant_saas.Prelude.{
  String, ◌≡◌, refl, ap, sym, ◌∙◌, false, some, List, [], ◌∷◌, ◌==◌, eq_refl, eq_iff, get_or, arith,
  Bool-cases, inl, inr,
}
use secure_multi_tenant_saas.Prelude.Dict.{
  Dict, HasUniqueKeys, get, put, pop, get-put, get-pop_ne, get-pop_self, put-HasUniqueKeys,
  pop-HasUniqueKeys,
}
use secure_multi_tenant_saas.Prelude.Exec.{ok}
use secure_multi_tenant_saas.Rds.Row.{
  UserRow, KeepsAccount, table_for_tenant, editable_fields, update_row, update_row-KeepsAccount,
}
use secure_multi_tenant_saas.Rds.Demo.{Db, users_of, new_row, get_user_by_id, upsert_user_profile}
use secure_multi_tenant_saas.Rds.Demo.Isolation.{
  Write, apply, apply_all, tenant_of, Edits, same, puts, puts_back, pops, apply-Edits, users_of-put,
}

-- The record that an upsert starts from: the user's, or a new one.
abbrev pub base_row : Db → String → String → Dict String → String → UserRow
base_row db t id fields role =
    get_or (get (users_of db t) id) (new_row id (editable_fields fields) role)

-- In demo mode, whatever fields are sent, a saved profile can be read back by its identifier, and its identifier,
-- role, enabled flag, date of the password and first-login flag are those of the record that was
-- there, or of the new one: no field that the caller sends changes them. The tenant's other users
-- stay as they were.
pub upsert-KeepsAccount :
    (db : Db) (t id : String) (fields : Dict String) (role : String) {table : String}
    → table_for_tenant t ≡ ok table
    → ((row : UserRow) × (get_user_by_id (upsert_user_profile db t id fields role) t id
          ≡ ok (some row))
        × KeepsAccount (base_row db t id fields role) row)
      × ((j : String)
          → (id == j) ≡ false
          → get_user_by_id (upsert_user_profile db t id fields role) t j ≡ get_user_by_id db t j)
unfolding get_user_by_id upsert_user_profile
upsert-KeepsAccount db t id fields role known = (
  (
    update_row (editable_fields fields) (base_row db t id fields role),
    rw (known, users_of-put, eq_refl, get-put, eq_refl) refl,
    update_row-KeepsAccount fields (base_row db t id fields role),
  ),
  λ j other. rw (known, users_of-put, eq_refl, get-put, other) refl,
)

-- The fields that the profile page sends.
abbrev pub profile_form : (name email phone department : String) → Dict String
profile_form name email phone department =
    ("username", name) ∷ ("email", email) ∷ ("phone", phone) ∷ ("department", department) ∷ []

-- The four fields of the profile page are all stored, whether or not the user had a record.
pub upsert_form :
    (db : Db) (t id name email phone department role : String) {table : String}
    → table_for_tenant t ≡ ok table
    → let fields = profile_form name email phone department in
      (row : UserRow) × (get_user_by_id (upsert_user_profile db t id fields role) t id
        ≡ ok (some row))
      × (row.username ≡ name)
      × (row.email ≡ email)
      × (row.phone ≡ phone)
      × (row.department ≡ department)
unfolding get_user_by_id upsert_user_profile editable_fields update_row
upsert_form db t id name email phone department role known =
    let fields = profile_form name email phone department in
    (
      update_row (editable_fields fields) (base_row db t id fields role),
      rw (known, users_of-put, eq_refl, get-put, eq_refl) refl,
      refl,
      refl,
      refl,
      refl,
    )

-- Each tenant's users are kept under their own identifiers, each under one.
pub record IsValid (db : Db) : Type 0 where
  pub keyed : (t id : String) (row : UserRow) → get (users_of db t) id ≡ some row → row.user_id ≡ id
  pub unique : (t : String) → HasUniqueKeys (users_of db t)

put-IsKeyed :
    (users : Dict UserRow) (id : String) (row : UserRow)
    → row.user_id ≡ id
    → ((j : String) (r : UserRow) → get users j ≡ some r → r.user_id ≡ j)
    → (j : String) (r : UserRow) → get (put users id row) j ≡ some r
    → r.user_id ≡ j
put-IsKeyed users id row k h j r e = ground (arith, get-put users id row j, eq_iff id j, h j r)

pop-IsKeyed :
    (users : Dict UserRow) (id : String)
    → HasUniqueKeys users
    → ((j : String) (r : UserRow) → get users j ≡ some r → r.user_id ≡ j)
    → (j : String) (r : UserRow) → get (pop users id) j ≡ some r
    → r.user_id ≡ j
pop-IsKeyed users id u h j r e =
    ground (arith, get-pop_ne users id j, get-pop_self users id u, eq_iff id j, h j r)

-- A write to one tenant's users, whose result is valid, keeps the whole valid.
put_users-IsValid :
    (db : Db) (t : String) (users : Dict UserRow)
    → IsValid db
    → ((j : String) (r : UserRow) → get users j ≡ some r → r.user_id ≡ j)
    → HasUniqueKeys users
    → IsValid (put db t users)
put_users-IsValid db t users v k u = record {
  keyed = λ t' id row e. elim (Bool-cases (t == t')) [
    | inl here ↦ k id row (sym (ap (λ us. get us id) (users_of-put db t users t' ∙ (rw here))) ∙ e)
    | inr there ↦
        v.keyed t' id row (sym (ap (λ us. get us id) (users_of-put db t users t' ∙ (rw there))) ∙ e)
  ];
  unique = λ t'. elim (Bool-cases (t == t')) [
    | inl here ↦ rw (users_of-put db t users t', here) u
    | inr there ↦ rw (users_of-put db t users t', there) (v.unique t')
  ];
}

Edits-IsValid : (db : Db) (t : String) (db' : Db) → Edits db t db' → IsValid db → IsValid db'
Edits-IsValid db t db' (same e) v = rw e v
Edits-IsValid db t db' (puts id row e k) v = rw e (
    put_users-IsValid db t _ v (put-IsKeyed (users_of db t) id row k (v.keyed t))
      (put-HasUniqueKeys (users_of db t) id row (v.unique t)))
Edits-IsValid db t db' (puts_back id row old e f k) v = rw e (
    put_users-IsValid db t _ v
      (put-IsKeyed (users_of db t) id row (k ∙ v.keyed t id old f) (v.keyed t))
      (put-HasUniqueKeys (users_of db t) id row (v.unique t)))
Edits-IsValid db t db' (pops id e) v = rw e (
    put_users-IsValid db t _ v (pop-IsKeyed (users_of db t) id (v.unique t) (v.keyed t))
      (pop-HasUniqueKeys (users_of db t) id (v.unique t)))

-- In demo mode, through any sequence of writes, every user's record stays under its own identifier, and under no
-- other.
pub apply_all-IsValid : (ws : List Write) (db : Db) → IsValid db → IsValid (apply_all ws db)
unfolding apply_all
apply_all-IsValid [] db v = v
apply_all-IsValid (w ∷ ws) db v =
    apply_all-IsValid ws (apply w db)
      (Edits-IsValid db (tenant_of w) (apply w db) (apply-Edits w db) v)
