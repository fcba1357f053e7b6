-- ===== src/Rds/Sql.antt =====
-- rds_service.py outside demo mode, and database.py: statements in transactions. PyMySQL is a
-- parameter. An empty DATE column is read as the empty text.
pub mod Schema
pub mod Connection
pub mod Reads
pub mod Transactions
pub mod Columns
pub mod Saved
pub mod Written
use secure_multi_tenant_saas.Prelude.{
  ℕ, zero, suc, ◌+◌, ◌-◌, ◌*◌, ◌/◌, String, Bool, true, false, Option, none, some, List, [], ◌∷◌,
  ◌==◌, nonempty, truthy, truthy?, or_empty, ltb, eqb, if◌then◌else◌,
}
use Prim.Native.String
use secure_multi_tenant_saas.Prelude.Dict.{Dict, get, put}
use secure_multi_tenant_saas.Prelude.Exec.{
  Exec, Result, ok, err, Error, runtime_error, pure, raise, try_except, continue, ◌>>=◌, ◌>>◌,
}
use secure_multi_tenant_saas.Config.{Config}
use secure_multi_tenant_saas.Secrets.{Vault, GetSecretValue, get_secret}
use secure_multi_tenant_saas.Rds.Row.{UserRow}
use secure_multi_tenant_saas.Rds.Demo.{UserPage}

-- The values of columns that are set.
pub data Value : Type 0 where
  text : String → Value
  flag : Bool → Value

-- The statements, with the table's name and the parameters of each.
pub data Statement : Type 0 where
  -- SELECT * FROM table WHERE column = value
  select_user : (table column value : String) → Statement
  -- SELECT COUNT(*) AS cnt FROM table WHERE (username LIKE term OR email LIKE term)
  count_matching : (table term : String) → Statement
  -- SELECT * FROM table WHERE (…) ORDER BY username LIMIT n OFFSET n
  select_matching : (table term : String) (limit offset : ℕ) → Statement
  -- SELECT role, enabled, COUNT(*) AS cnt FROM table GROUP BY role, enabled
  count_groups : (table : String) → Statement
  -- SELECT userId FROM table WHERE userId = value FOR UPDATE
  lock_user : (table user_id : String) → Statement
  -- UPDATE table SET column = value, … WHERE userId = value
  update_user : (table : String) (columns : Dict Value) (user_id : String) → Statement
  -- INSERT INTO table (column, …) VALUES (value, …)
  insert_user : (table : String) (columns : Dict Value) → Statement
  -- DELETE FROM table WHERE userId = value
  delete_user : (table user_id : String) → Statement
  -- CREATE TABLE IF NOT EXISTS table (…)
  create_table : (table : String) → Statement

-- A row of the grouped counts.
pub record Group : Type 0 where
  pub role : String
  pub enabled : Bool
  pub cnt : ℕ

-- What a cursor gives after a statement: its rows, as far as it has any, and `rowcount`.
pub record Reply : Type 0 where
  pub rows : List UserRow
  pub ids : List String
  pub total : ℕ
  pub groups : List Group
  pub rowcount : ℕ

-- `pymysql.connect` with a name and a password, and the calls of a connection.
pub record Driver (S : Type 0) : Type 0 where
  pub connect : (user password : Option String) → S → Result (Unit {0}) × S
  pub execute : Statement → S → Result Reply × S
  pub commit : S → Result (Unit {0}) × S
  pub rollback : S → Result (Unit {0}) × S
  pub close : S → Result (Unit {0}) × S

abbrev pub first_row : List UserRow → Option UserRow
first_row [] = none
first_row (row ∷ _) = some row

abbrev as_texts : Dict String → Dict Value
as_texts [] = []
as_texts ((k, v) ∷ fields) = (k, text v) ∷ as_texts fields

abbrev set_missing : Option Value → Dict Value → String → Value → Dict Value
set_missing none columns k v = put columns k v
set_missing (some _) columns k v = columns

-- `d.setdefault(k, v)`
abbrev setdefault : Dict Value → String → Value → Dict Value
setdefault columns k v = set_missing (get columns k) columns k v

-- `insert_fields`
unfoldable pub insert_fields : Dict String → (user_id role : String) → Dict Value
insert_fields fields user_id role =
    let named = put (as_texts fields) "userId" (text user_id) in
    let with_name = setdefault named "username" (text user_id) in
    let with_email = setdefault with_name "email" (text "") in
    setdefault (put with_email "role" (text role)) "enabled" (flag true)

-- The totals of `stats`: every role but `admin` counts as a user.
pub record Stats : Type 0 where
  pub admins : ℕ
  pub users : ℕ
  pub active : ℕ
  pub disabled : ℕ

abbrev count_group : Group → Stats → Stats
count_group g s = record {
  admins = if g.role == "admin" then s.admins + g.cnt else s.admins;
  users = if g.role == "admin" then s.users else s.users + g.cnt;
  active = if g.enabled then s.active + g.cnt else s.active;
  disabled = if g.enabled then s.disabled else s.disabled + g.cnt;
}

unfoldable pub stats_of : List Group → Stats → Stats
stats_of [] s = s
stats_of (g ∷ groups) s = stats_of groups (count_group g s)

abbrev no_stats : Stats
no_stats = record { admins = 0; users = 0; active = 0; disabled = 0 }

-- `max(1, n)`
abbrev at_least_one : ℕ → ℕ
at_least_one n = if ltb n 1 then 1 else n

page_of : (page page_size total : ℕ) → List UserRow → Stats → UserPage
page_of page page_size total rows s = record {
  rows = rows;
  total = total;
  page = page;
  page_size = page_size;
  total_pages = at_least_one ((total + page_size - 1) / page_size);
  admins = s.admins;
  users = s.users;
  active = s.active;
  disabled = s.disabled;
}

module _ {S : Type 0} (loads : String → Option (Dict String)) (config : Config)
    (fetch : GetSecretValue S) (now : ℕ) (driver : Driver S) where
  abbrev on_driver : {A : Type 0} → (S → Result A × S) → Exec (Vault S) A
  on_driver f v = let (r, s) = f v.services in (r, record v { services = s })

  abbrev execute : Statement → Exec (Vault S) Reply
  execute statement = on_driver (driver.execute statement)

  unfoldable pub get_connection : Exec (Vault S) (Unit {0})
  get_connection = get_secret loads config fetch now none >>= λ secret.
      on_driver (driver.connect (get secret "db_username") (get secret "db_password"))

  -- An exception of `close` takes the place of what was to be returned or raised.
  abbrev closed : {A : Type 0} → Result A → Result (Unit {0}) → Result A
  closed r (ok _) = r
  closed r (err e) = err e

  -- `try: m finally: conn.close()`
  abbrev finally_close : {A : Type 0} → Exec (Vault S) A → Exec (Vault S) A
  finally_close m v =
      let (r, v') = m v in let (c, v'') = on_driver driver.close v' in (closed r c, v'')

  -- A function that only reads.
  abbrev reading : {A : Type 0} → Exec (Vault S) A → Exec (Vault S) A
  reading m = get_connection >> finally_close m

  abbrev undo : Error → Exec (Vault S) (Unit {0})
  undo e = on_driver driver.rollback >> raise e

  abbrev every : Error → Bool
  every e = true

  -- `try: m; conn.commit() except Exception: conn.rollback(); raise`
  abbrev committing : Exec (Vault S) (Unit {0}) → Exec (Vault S) (Unit {0})
  committing m = try_except (m >> on_driver driver.commit) every undo

  unfoldable pub in_transaction : Exec (Vault S) (Unit {0}) → Exec (Vault S) (Unit {0})
  unfolding get_connection
  in_transaction m = get_connection >> finally_close (committing m)

  -- `table` is the table of the tenant.
  unfoldable pub select_by : (table column value : String) → Exec (Vault S) (Option UserRow)
  select_by table column value =
      reading (execute (select_user table column value) >>= λ reply. pure (first_row reply.rows))

  -- An empty identifier is no user's.
  unfoldable pub get_user_by_id : (table user_id : String) → Exec (Vault S) (Option UserRow)
  unfolding select_by
  get_user_by_id table user_id =
      if truthy user_id then select_by table "userId" user_id else pure none

  unfoldable pub get_user_by_username :
      (table : String) → Option String → Exec (Vault S) (Option UserRow)
  unfolding select_by
  get_user_by_username table username =
      if truthy? username then select_by table "username" (or_empty username) else pure none

  -- Pages are numbered from 1.
  unfoldable pub list_users : (table search : String) (page page_size : ℕ) → Exec (Vault S) UserPage
  unfolding page_of stats_of
  list_users table search page page_size =
      let term = String.◌++◌ "%" (String.◌++◌ search "%") in
      reading (
        execute (count_matching table term) >>= λ counted.
        execute (select_matching table term page_size ((page - 1) * page_size)) >>= λ found.
        execute (count_groups table) >>= λ grouped.
        pure (page_of page page_size counted.total found.rows (stats_of grouped.groups no_stats)))

  -- `if cursor.rowcount == 0: raise RuntimeError`
  abbrev check_rowcount : Reply → Exec (Vault S) (Unit {0})
  check_rowcount reply = if eqb reply.rowcount 0 then raise runtime_error else pure tt

  unfoldable pub save_row :
      (table user_id : String) → Dict String → (role : String) → Exec (Vault S) (Unit {0})
  unfolding insert_fields
  save_row table user_id fields role = execute (lock_user table user_id) >>= λ existing.
      if nonempty existing.ids
      then if nonempty fields
        then execute (update_user table (as_texts fields) user_id) >>= check_rowcount
        else pure tt
      else execute (insert_user table (insert_fields fields user_id role)) >>= check_rowcount

  abbrev ignore_reply : Statement → Exec (Vault S) (Unit {0})
  ignore_reply statement = execute statement >> pure tt

  unfoldable pub create_row :
      (table user_id username email role : String) → Exec (Vault S) (Unit {0})
  create_row table user_id username email role = ignore_reply (
      insert_user table (
        ("userId", text user_id)
        ∷ ("username", text username)
        ∷ ("email", text email)
        ∷ ("role", text role)
        ∷ ("enabled", flag true)
        ∷ []))

  unfoldable pub enable_row : (table user_id : String) (enabled : Bool) → Exec (Vault S) (Unit {0})
  enable_row table user_id enabled =
      ignore_reply (update_user table (("enabled", flag enabled) ∷ []) user_id)

  unfoldable pub delete_row :
      (table user_id : String) (hard_delete : Bool) → Exec (Vault S) (Unit {0})
  unfolding enable_row
  delete_row table user_id hard_delete =
      if hard_delete
      then ignore_reply (delete_user table user_id)
      else enable_row table user_id false

  unfoldable pub mark_row : (today table user_id : String) → Exec (Vault S) (Unit {0})
  mark_row today table user_id = ignore_reply (
      update_user table (("password_last_changed", text today) ∷ ("first_login", flag false) ∷ [])
        user_id)

  -- database.py
  unfoldable pub init_schema : Exec (Vault S) (Unit {0})
  unfolding in_transaction
  init_schema =
      if config.demo_mode
      then pure tt
      else in_transaction
          (execute (create_table "TenantA") >> execute (create_table "TenantB") >> pure tt)
