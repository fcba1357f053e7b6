-- ===== src/Rds/Service.antt =====
-- rds_service.py: every function, in demo mode on the users in memory, else on the database.
pub mod Spec
pub mod Refinement
pub mod Reading
pub mod Isolation
use secure_multi_tenant_saas.Prelude.{
  ℕ, String, Bool, true, false, Option, none, some, List, [], ◌∷◌, if◌then◌else◌,
}
use secure_multi_tenant_saas.Prelude.Dict.{Dict, get}
use secure_multi_tenant_saas.Prelude.Exec.{Exec, Result, ok, err}
use secure_multi_tenant_saas.Config.{Config}
use secure_multi_tenant_saas.Secrets.{Vault, GetSecretValue}
use secure_multi_tenant_saas.Rds.Row.{UserRow, table_for_tenant, editable_fields}
use secure_multi_tenant_saas.Rds.Demo
use secure_multi_tenant_saas.Rds.Demo.{Db, UserPage}
use secure_multi_tenant_saas.Rds.Sql
use secure_multi_tenant_saas.Rds.Sql.{Driver}
use secure_multi_tenant_saas.Rds.Users.{UserStore}

-- `_demo_db`, and the state of secret_service.py with the database behind it.
pub record Store (S : Type 0) : Type 0 where
  pub demo_db : Db
  pub vault : Vault S

module _ {S : Type 0} where
  abbrev on_vault : {A : Type 0} → Exec (Vault S) A → Exec (Store S) A
  on_vault m store = let (r, v) = m store.vault in (r, record store { vault = v })

  abbrev on_demo : (Db → Db) → Exec (Store S) (Unit {0})
  on_demo f store = (ok tt, record store { demo_db = f store.demo_db })

  abbrev at_table : {A : Type 0} → Result String → (String → Exec (Vault S) A) → Exec (Store S) A
  at_table (ok table) f store = on_vault (f table) store
  at_table (err e) f store = (err e, store)

module _ {S : Type 0} (loads : String → Option (Dict String)) (config : Config)
    (fetch : GetSecretValue S) (now : ℕ) (driver : Driver S) (today : String) where
  unfoldable pub get_user_by_id : (tenant user_id : String) → Exec (Store S) (Option UserRow)
  get_user_by_id tenant user_id store =
      let from_table =
        at_table (table_for_tenant tenant)
          (λ table. Sql.get_user_by_id loads config fetch now driver table user_id) store in
      if config.demo_mode
      then (Demo.get_user_by_id store.demo_db tenant user_id, store)
      else from_table

  unfoldable pub get_user_by_username :
      (tenant : String) → Option String → Exec (Store S) (Option UserRow)
  get_user_by_username tenant username store =
      let from_table =
        at_table (table_for_tenant tenant)
          (λ table. Sql.get_user_by_username loads config fetch now driver table username) store in
      if config.demo_mode
      then (Demo.get_user_by_username store.demo_db tenant username, store)
      else from_table

  unfoldable pub list_users :
      (tenant search : String) (page page_size : ℕ) → Exec (Store S) UserPage
  list_users tenant search page page_size store =
      let from_table =
        at_table (table_for_tenant tenant)
          (λ table. Sql.list_users loads config fetch now driver table search page page_size)
          store in
      if config.demo_mode
      then (ok (Demo.list_users store.demo_db tenant search page page_size), store)
      else from_table

  -- A function that writes: in demo mode no table is looked up.
  writing :
      (Db → Db) → Result String → (String → Exec (Vault S) (Unit {0})) → Exec (Store S) (Unit {0})
  writing f table body store =
      let in_table =
        at_table table (λ name. Sql.in_transaction loads config fetch now driver (body name))
          store in
      if config.demo_mode then on_demo f store else in_table

  unfoldable pub upsert_user_profile :
      (tenant user_id : String) → Dict String → (role : String) → Exec (Store S) (Unit {0})
  unfolding writing
  upsert_user_profile tenant user_id fields role =
      writing (λ db. Demo.upsert_user_profile db tenant user_id fields role)
        (table_for_tenant tenant)
        λ table.
          Sql.save_row loads config fetch now driver table user_id (editable_fields fields) role

  unfoldable pub create_user_record :
      (tenant user_id username email role : String) → Exec (Store S) (Unit {0})
  unfolding writing
  create_user_record tenant user_id username email role =
      writing (λ db. Demo.create_user_record db tenant user_id username email role)
        (table_for_tenant tenant)
        λ table. Sql.create_row loads config fetch now driver table user_id username email role

  unfoldable pub delete_user_record :
      (tenant user_id : String) (hard_delete : Bool) → Exec (Store S) (Unit {0})
  unfolding writing
  delete_user_record tenant user_id hard_delete =
      writing (λ db. Demo.delete_user_record db tenant user_id hard_delete)
        (table_for_tenant tenant)
        λ table. Sql.delete_row loads config fetch now driver table user_id hard_delete

  unfoldable pub set_user_enabled :
      (tenant user_id : String) (enabled : Bool) → Exec (Store S) (Unit {0})
  unfolding writing
  set_user_enabled tenant user_id enabled =
      writing (λ db. Demo.set_user_enabled db tenant user_id enabled) (table_for_tenant tenant)
        λ table. Sql.enable_row loads config fetch now driver table user_id enabled

  unfoldable pub mark_password_changed : (tenant user_id : String) → Exec (Store S) (Unit {0})
  unfolding writing
  mark_password_changed tenant user_id =
      writing (λ db. Demo.mark_password_changed today db tenant user_id) (table_for_tenant tenant)
        λ table. Sql.mark_row loads config fetch now driver today table user_id

  -- The functions, as the views call them.
  abbrev pub rds_service : UserStore (Store S)
  rds_service = record {
    get_user_by_id = get_user_by_id;
    get_user_by_username = get_user_by_username;
    list_users = list_users;
    upsert_user_profile = upsert_user_profile;
    create_user_record = create_user_record;
    delete_user_record = delete_user_record;
    set_user_enabled = set_user_enabled;
    mark_password_changed = mark_password_changed;
  }
