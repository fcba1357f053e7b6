-- ===== src/Rds/Demo.antt =====
-- rds_service.py in demo mode: the users in memory. In `list_users` pages are numbered from 1.
pub mod Isolation
pub mod Profile
pub mod Pages
pub mod Written
use secure_multi_tenant_saas.Prelude.{
  ℕ, zero, suc, ◌+◌, ◌-◌, ◌*◌, ◌/◌, String, Bool, true, false, not, Option, none, some, List, [],
  ◌∷◌, ◌||◌, ◌==◌, length, take, drop, keep_if, truthy, get_or, ltb, if◌then◌else◌,
}
use secure_multi_tenant_saas.Prelude.Text.{lower, is_infix}
use secure_multi_tenant_saas.Prelude.Dict.{Dict, get, put, pop, values}
use secure_multi_tenant_saas.Prelude.Exec.{Result, ok, err, and_then}
use secure_multi_tenant_saas.Rds.Row.{UserRow, table_for_tenant, editable_fields, update_row}

-- `_demo_db`: for each tenant its users by identifier.
abbrev pub Db : Type 0
Db = Dict (Dict UserRow)

-- `_demo_db.get(tenant, {})`
abbrev pub users_of : Db → String → Dict UserRow
users_of db tenant = get_or (get db tenant) []

unfoldable pub get_user_by_id : Db → String → String → Result (Option UserRow)
get_user_by_id db tenant user_id =
    and_then (table_for_tenant tenant) λ _. ok (get (users_of db tenant) user_id)

unfoldable pub find_username : String → List UserRow → Option UserRow
find_username username [] = none
find_username username (row ∷ rows) =
    let rest = find_username username rows in if row.username == username then some row else rest

-- The name that is searched for may be `None`.
abbrev find_name : Option String → List UserRow → Option UserRow
find_name none rows = none
find_name (some username) rows = find_username username rows

unfoldable pub get_user_by_username : Db → String → Option String → Result (Option UserRow)
unfolding find_username
get_user_by_username db tenant username =
    and_then (table_for_tenant tenant) λ _. ok (find_name username (values (users_of db tenant)))

-- The search of `list_users`.
matches : String → UserRow → Bool
matches search row =
    is_infix (lower search) (lower row.username) || is_infix (lower search) (lower row.email)

pub matching_rows : String → List UserRow → List UserRow
unfolding matches
matching_rows search rows = if truthy search then keep_if (matches search) rows else rows

-- `rows[(page - 1) * size : (page - 1) * size + size]`; at page 0 the slice ends at 0.
page_rows : ℕ → ℕ → List UserRow → List UserRow
page_rows zero size rows = []
page_rows (suc n) size rows = take size (drop (n * size) rows)

-- `sum(1 for r in rows if p(r))`
abbrev pub count_if : (UserRow → Bool) → List UserRow → ℕ
count_if p rows = length (keep_if p rows)

pub record UserPage : Type 0 where
  pub rows : List UserRow
  pub total : ℕ
  pub page : ℕ
  pub page_size : ℕ
  pub total_pages : ℕ
  pub admins : ℕ
  pub users : ℕ
  pub active : ℕ
  pub disabled : ℕ

-- `max(1, n)`
abbrev at_least_one : ℕ → ℕ
at_least_one n = if ltb n 1 then 1 else n

unfoldable pub list_users : Db → String → String → ℕ → ℕ → UserPage
unfolding matching_rows page_rows
list_users db tenant search page page_size =
    let all = values (users_of db tenant) in
    let rows = matching_rows search all in
    record {
      rows = page_rows page page_size rows;
      total = length rows;
      page = page;
      page_size = page_size;
      total_pages = at_least_one ((length rows + page_size - 1) / page_size);
      admins = count_if (λ r. r.role == "admin") all;
      users = count_if (λ r. r.role == "user") all;
      active = count_if (λ r. r.enabled) all;
      disabled = count_if (λ r. not r.enabled) all;
    }

-- The record that `setdefault` puts in for a new user.
pub new_row : String → Dict String → String → UserRow
new_row user_id fields role = record {
  user_id = user_id;
  username = get_or (get fields "username") user_id;
  email = get_or (get fields "email") "";
  role = role;
  phone = "";
  department = "";
  profile_image = none;
  enabled = true;
  password_last_changed = "-";
  first_login = true;
}

unfoldable pub upsert_user_profile : Db → String → String → Dict String → String → Db
unfolding new_row
upsert_user_profile db tenant user_id fields role =
    let edited = editable_fields fields in
    let users = users_of db tenant in
    let row = get_or (get users user_id) (new_row user_id edited role) in
    put db tenant (put users user_id (update_row edited row))

unfoldable pub create_user_record : Db → String → String → String → String → String → Db
create_user_record db tenant user_id username email role = put db tenant (
    put (users_of db tenant) user_id (record {
      user_id = user_id;
      username = username;
      email = email;
      role = role;
      phone = "";
      department = "";
      profile_image = none;
      enabled = true;
      password_last_changed = "-";
      first_login = true;
    }))

-- `users[user_id] = f(users[user_id])`, if there is that user.
edit_found : (UserRow → UserRow) → Db → String → Dict UserRow → String → Option UserRow → Db
edit_found f db tenant users user_id none = db
edit_found f db tenant users user_id (some row) = put db tenant (put users user_id (f row))

edit_row : (UserRow → UserRow) → Db → String → String → Db
unfolding edit_found
edit_row f db tenant user_id =
    edit_found f db tenant (users_of db tenant) user_id (get (users_of db tenant) user_id)

-- `_demo_db.get(tenant, {}).pop(user_id, None)`: a tenant that is not there is not made.
remove_from : Db → String → String → Option (Dict UserRow) → Db
remove_from db tenant user_id none = db
remove_from db tenant user_id (some users) = put db tenant (pop users user_id)

unfoldable pub set_user_enabled : Db → String → String → Bool → Db
unfolding edit_row
set_user_enabled db tenant user_id enabled =
    edit_row (λ row. record row { enabled = enabled }) db tenant user_id

unfoldable pub delete_user_record : Db → String → String → Bool → Db
unfolding remove_from edit_row
delete_user_record db tenant user_id hard_delete =
    if hard_delete
    then remove_from db tenant user_id (get db tenant)
    else edit_row (λ row. record row { enabled = false }) db tenant user_id

unfoldable pub mark_password_changed : String → Db → String → String → Db
unfolding edit_row
mark_password_changed today db tenant user_id =
    edit_row (λ row. record row { password_last_changed = today; first_login = false }) db tenant
      user_id
