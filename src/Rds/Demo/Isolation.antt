-- ===== src/Rds/Demo/Isolation.antt =====
-- rds_service.py in demo mode: the tenants do not touch one another's users.
use secure_multi_tenant_saas.Prelude.{
  String, ◌≡◌, refl, ◌∙◌, Bool, true, false, Option, none, some, List, [], ◌∷◌, All, ◌==◌, get_or,
  arith, if◌then◌else◌,
}
use secure_multi_tenant_saas.Prelude.Dict.{Dict, get, put, pop, get-put}
use secure_multi_tenant_saas.Rds.Row.{UserRow, editable_fields, update_row, update_row-KeepsAccount}
use secure_multi_tenant_saas.Rds.Demo.{
  Db, users_of, new_row, edit_found, remove_from, upsert_user_profile, create_user_record,
  delete_user_record, set_user_enabled, mark_password_changed,
}

-- The calls that write, each with the tenant first.
pub data Write : Type 0 where
  upsert : String → String → Dict String → String → Write
  create : String → String → String → String → String → Write
  delete : String → String → Bool → Write
  enable : String → String → Bool → Write
  password_changed : String → String → String → Write

abbrev pub tenant_of : Write → String
tenant_of (upsert tenant _ _ _) = tenant
tenant_of (create tenant _ _ _ _) = tenant
tenant_of (delete tenant _ _) = tenant
tenant_of (enable tenant _ _) = tenant
tenant_of (password_changed tenant _ _) = tenant

unfoldable pub apply : Write → Db → Db
apply (upsert t id fields role) db = upsert_user_profile db t id fields role
apply (create t id username email role) db = create_user_record db t id username email role
apply (delete t id hard) db = delete_user_record db t id hard
apply (enable t id enabled) db = set_user_enabled db t id enabled
apply (password_changed t id today) db = mark_password_changed today db t id

unfoldable pub apply_all : List Write → Db → Db
apply_all [] db = db
apply_all (w ∷ ws) db = apply_all ws (apply w db)

-- What a write does to the users of its tenant: it puts one in, takes one out, or does nothing.
pub data Edits (db : Db) (tenant : String) (db' : Db) : Type 0 where
  same : db' ≡ db → Edits db tenant db'
  puts :
      (id : String) (row : UserRow)
      → db' ≡ put db tenant (put (users_of db tenant) id row)
      → row.user_id ≡ id
      → Edits db tenant db'
  puts_back :
      (id : String) (row old : UserRow)
      → db' ≡ put db tenant (put (users_of db tenant) id row)
      → get (users_of db tenant) id ≡ some old
      → row.user_id ≡ old.user_id
      → Edits db tenant db'
  pops : (id : String) → db' ≡ put db tenant (pop (users_of db tenant) id) → Edits db tenant db'

edit_found-Edits :
    (f : UserRow → UserRow) (db : Db) (t id : String) (o : Option UserRow)
    → ((row : UserRow) → (f row).user_id ≡ row.user_id)
    → get (users_of db t) id ≡ o
    → Edits db t (edit_found f db t (users_of db t) id o)
unfolding edit_found
edit_found-Edits f db t id none k e = same refl
edit_found-Edits f db t id (some row) k e = puts_back id (f row) row refl e (k row)

remove_from-Edits :
    (db : Db) (t id : String) (o : Option (Dict UserRow))
    → get db t ≡ o
    → Edits db t (remove_from db t id o)
unfolding remove_from
remove_from-Edits db t id none e = same refl
remove_from-Edits db t id (some users) e = pops id (rw e)

upsert-Edits :
    (db : Db) (t id : String) (fields : Dict String) (role : String) (o : Option UserRow)
    → get (users_of db t) id ≡ o
    → let edited = editable_fields fields in
      Edits db t
        (put db t (put (users_of db t) id (update_row edited (get_or o (new_row id edited role)))))
unfolding new_row
upsert-Edits db t id fields role none e =
    puts id _ refl
      (update_row-KeepsAccount fields (new_row id (editable_fields fields) role)).user_id
upsert-Edits db t id fields role (some row) e =
    puts_back id _ row refl e (update_row-KeepsAccount fields row).user_id

pub apply-Edits : (w : Write) (db : Db) → Edits db (tenant_of w) (apply w db)
unfolding apply upsert_user_profile create_user_record delete_user_record set_user_enabled
    mark_password_changed
apply-Edits (upsert t id fields role) db =
    upsert-Edits db t id fields role (get (users_of db t) id) refl
apply-Edits (create t id username email role) db = puts id _ refl refl
apply-Edits (delete t id true) db = remove_from-Edits db t id (get db t) refl
apply-Edits (delete t id false) db = edit_found-Edits _ db t id _ (λ row. refl) refl
apply-Edits (enable t id enabled) db = edit_found-Edits _ db t id _ (λ row. refl) refl
apply-Edits (password_changed t id today) db = edit_found-Edits _ db t id _ (λ row. refl) refl

pub users_of-put :
    (db : Db) (t : String) (users : Dict UserRow) (u : String)
    → users_of (put db t users) u ≡ (if t == u then users else users_of db u)
users_of-put db t users u = rw (get-put db t users u) (ground arith)

pub users_of-Edits :
    (db : Db) (t : String) (db' : Db) (u : String)
    → Edits db t db'
    → (t == u) ≡ false
    → users_of db' u ≡ users_of db u
users_of-Edits db t db' u (same e) h = rw e
users_of-Edits db t db' u (puts id row e k) h = rw (e, users_of-put, h)
users_of-Edits db t db' u (puts_back id row old e f k) h = rw (e, users_of-put, h)
users_of-Edits db t db' u (pops id e) h = rw (e, users_of-put, h)

-- No sequence of writes for other tenants, of whatever users and fields, changes a tenant's users:
-- all that can be read of the tenant is as before.
pub apply_all-isolated :
    (ws : List Write) (db : Db) (u : String)
    → All (λ w. (tenant_of w == u) ≡ false) ws
    → users_of (apply_all ws db) u ≡ users_of db u
unfolding apply_all
apply_all-isolated [] db u h = refl
apply_all-isolated (w ∷ ws) db u h =
    apply_all-isolated ws (apply w db) u h.1
    ∙ users_of-Edits db (tenant_of w) (apply w db) u (apply-Edits w db) h.0
