-- ===== src/Rds/Service/Isolation.antt =====
-- rds_service.py: the functions keep the tenants apart, in both modes.
use mathlib.Core.Path.{fun_ext}
use secure_multi_tenant_saas.Prelude.{
  ℕ, String, ◌≡◌, refl, ap, ◌∙◌, inl, inr, true, false, Option, ◌==◌, Bool-cases, if◌then◌else◌,
}
use secure_multi_tenant_saas.Prelude.Dict.{Dict, get}
use secure_multi_tenant_saas.Prelude.Exec.{Result-cases, Exec, Result, ok, err, Error}
use secure_multi_tenant_saas.Config.{Config}
use secure_multi_tenant_saas.Secrets.{Vault, GetSecretValue}
use secure_multi_tenant_saas.Rds.Row.{table_for_tenant}
use secure_multi_tenant_saas.Rds.Demo.Isolation.{
  Write, upsert, create, delete, enable, password_changed, tenant_of, apply, apply-Edits,
  users_of-Edits,
}
use secure_multi_tenant_saas.Rds.Sql.{Driver}
use secure_multi_tenant_saas.Rds.Sql.Schema.{Rows}
use secure_multi_tenant_saas.Rds.Sql.Connection.{IsDriver}
use secure_multi_tenant_saas.Rds.Sql.Reads.{
  Still, get_user_by_id-Still, get_user_by_username-Still, list_users-Still,
}
use secure_multi_tenant_saas.Rds.Users.{IsIsolating}
use secure_multi_tenant_saas.Rds.Service.{
  Store, at_table, writing, get_user_by_id, get_user_by_username, list_users, upsert_user_profile,
  create_user_record, delete_user_record, set_user_enabled, mark_password_changed, rds_service,
}
use secure_multi_tenant_saas.Rds.Service.Spec.{specified}
use secure_multi_tenant_saas.Rds.Service.Refinement.{
  rows_of, Accomplishes, perform, perform-Accomplishes,
}

module _ {S : Type 0} {weight : String → String} (loads : String → Option (Dict String))
    (config : Config) (fetch : GetSecretValue S) (now : ℕ) (driver : Driver S)
    (committed pending : S → Rows) (laws : IsDriver weight fetch driver committed pending) where
  -- In demo mode.
  perform-in_memory :
      (w : Write) (store : Store S)
      → config.demo_mode ≡ true
      → perform loads config fetch now driver w store
        ≡ (ok tt, record store { demo_db = apply w store.demo_db })
  unfolding perform apply upsert_user_profile create_user_record delete_user_record set_user_enabled
      mark_password_changed writing
  perform-in_memory (upsert t id fields role) store demo = rw demo refl
  perform-in_memory (create t id username email role) store demo = rw demo refl
  perform-in_memory (delete t id hard) store demo = rw demo refl
  perform-in_memory (enable t id enabled) store demo = rw demo refl
  perform-in_memory (password_changed t id today) store demo = rw demo refl

  -- For a tenant that is not allowed.
  perform-disallowed :
      (w : Write) (store : Store S) (e : Error)
      → config.demo_mode ≡ false
      → table_for_tenant (tenant_of w) ≡ err e
      → perform loads config fetch now driver w store ≡ (err e, store)
  unfolding perform upsert_user_profile create_user_record delete_user_record set_user_enabled
      mark_password_changed writing
  perform-disallowed (upsert t id fields role) store e live h = rw (live, h) refl
  perform-disallowed (create t id username email role) store e live h = rw (live, h) refl
  perform-disallowed (delete t id hard) store e live h = rw (live, h) refl
  perform-disallowed (enable t id enabled) store e live h = rw (live, h) refl
  perform-disallowed (password_changed t id today) store e live h = rw (live, h) refl

  -- A write that refines its meaning leaves the other tenants' rows.
  Accomplishes-other :
      (w : Write) (store : Store S) (out : Result (Unit {0}) × Store S) (u : String)
      → Accomplishes config committed weight w store out
      → (tenant_of w == u) ≡ false
      → rows_of config committed out.1 u ≡ rows_of config committed store u
  unfolding specified
  Accomplishes-other w store out u refines other = elim refines.whole [
    | inl same ↦ fun_ext (λ j. same u j)
    | inr made ↦ fun_ext (λ j. made u j ∙ (rw other refl))
  ]

  perform-other :
      (w : Write) (store : Store S) (u : String)
      → (tenant_of w == u) ≡ false
      → rows_of config committed (perform loads config fetch now driver w store).1 u
        ≡ rows_of config committed store u
  perform-other w store u other = elim (Bool-cases config.demo_mode) [
    | inl demo ↦
        simp (perform-in_memory w store demo, demo)
          (ap get
            (users_of-Edits store.demo_db (tenant_of w) _ u (apply-Edits w store.demo_db) other))
    | inr live ↦ elim (Result-cases (table_for_tenant (tenant_of w))) [
      | inl (table, known) ↦
          Accomplishes-other w store _ u
            (perform-Accomplishes loads config fetch now driver committed pending laws w store live
              known)
            other
      | inr (e, unknown) ↦ rw (perform-disallowed w store e live unknown) refl
    ]
  ]

  at_table-same :
      {A : Type 0} (r : Result String) (m : String → Exec (Vault S) A) (store : Store S)
      → ((table : String) → Still loads config fetch now driver committed pending laws (m table))
      → committed (at_table r m store).1.vault.services ≡ committed store.vault.services
  at_table-same (ok table) m store h = (h table).at store.vault
  at_table-same (err e) m store h = refl

  at_table-demo :
      {A : Type 0} (r : Result String) (m : String → Exec (Vault S) A) (store : Store S)
      → (at_table r m store).1.demo_db ≡ store.demo_db
  at_table-demo (ok table) m store = refl
  at_table-demo (err e) m store = refl

  -- A function that reads, in either mode.
  read-same :
      {A : Type 0} (r : Result String) (m : String → Exec (Vault S) A) (a : Result A)
      (store : Store S) (u : String)
      → ((table : String) → Still loads config fetch now driver committed pending laws (m table))
      → rows_of config committed (if config.demo_mode then (a, store) else at_table r m store).1 u
        ≡ rows_of config committed store u
  read-same r m a store u h = elim (Bool-cases config.demo_mode) [
    | inl demo ↦ simp demo refl
    | inr live ↦ simp live (ap (λ rows. rows u) (at_table-same r m store h))
  ]

  -- The functions of rds_service.py, in memory or in the database, keep the rows of the other tenants
  -- as they are when they write, and all rows when they read, whether they return or raise.
  pub rds_service-IsIsolating :
      (today : String)
      → IsIsolating (rows_of config committed) (rds_service loads config fetch now driver today)
  unfolding perform get_user_by_id get_user_by_username list_users upsert_user_profile
      create_user_record delete_user_record set_user_enabled mark_password_changed writing
  rds_service-IsIsolating today = record {
    get_user_by_id = λ t id store u.
        read-same _ _ _ store u λ table.
          get_user_by_id-Still loads config fetch now driver committed pending laws table id;
    get_user_by_username = λ t name store u. read-same _ _ _ store u λ table.
        get_user_by_username-Still loads config fetch now driver committed pending laws table name;
    list_users = λ t search n k store u. read-same _ _ _ store u λ table.
        list_users-Still loads config fetch now driver committed pending laws table search n k;
    upsert_user_profile = λ t id fields role. perform-other (upsert t id fields role);
    create_user_record = λ t id name email role. perform-other (create t id name email role);
    delete_user_record = λ t id hard. perform-other (delete t id hard);
    set_user_enabled = λ t id enabled. perform-other (enable t id enabled);
    mark_password_changed = λ t id. perform-other (password_changed t id today);
  }
