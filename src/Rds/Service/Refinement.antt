-- ===== src/Rds/Service/Refinement.antt =====
-- rds_service.py: in memory or in the database, each write does what it means, or nothing.
use secure_multi_tenant_saas.Prelude.{
  ℕ, String, ◌≡◌, refl, ap, ◌∙◌, ◌⊎◌, inl, inr, true, false, Option, Bool-cases, if◌then◌else◌,
}
use secure_multi_tenant_saas.Prelude.Dict.{Dict, HasUniqueKeys}
use secure_multi_tenant_saas.Prelude.Exec.{Result-cases, Exec, Result, ok, err, Error}
use secure_multi_tenant_saas.Config.{Config}
use secure_multi_tenant_saas.Secrets.{GetSecretValue}
use secure_multi_tenant_saas.Rds.Row.{table_for_tenant}
use secure_multi_tenant_saas.Rds.Demo.{users_of}
use secure_multi_tenant_saas.Rds.Demo.Isolation.{
  Write, upsert, create, delete, enable, password_changed, tenant_of, apply,
}
use secure_multi_tenant_saas.Rds.Demo.Written.{lookup, apply-written}
use secure_multi_tenant_saas.Rds.Sql.{Driver, in_transaction}
use secure_multi_tenant_saas.Rds.Sql.Schema.{Rows}
use secure_multi_tenant_saas.Rds.Sql.Connection.{IsDriver}
use secure_multi_tenant_saas.Rds.Sql.Transactions.{in_transaction-Settled}
use secure_multi_tenant_saas.Rds.Sql.Columns.{table-tenant}
use secure_multi_tenant_saas.Rds.Sql.Written.{Does, body_of, body_of-IsBody}
use secure_multi_tenant_saas.Rds.Service.{
  Store, on_vault, writing, upsert_user_profile, create_user_record, delete_user_record,
  set_user_enabled, mark_password_changed,
}
use secure_multi_tenant_saas.Rds.Service.Spec.{Fresh, specified, in_memory, in_tables}

-- How rows are kept, in each mode.
abbrev pub fresh_in : (String → String) → Config → Fresh
fresh_in weight config = if config.demo_mode then in_memory else in_tables weight

module _ {S : Type 0} (config : Config) (committed : S → Rows) where
  -- The rows that the functions keep.
  abbrev pub rows_of : Store S → Rows
  rows_of store = if config.demo_mode then lookup store.demo_db else committed store.vault.services

  module _ (weight : String → String) where
    -- The rows after a write are as before or those that it means, and the latter if it returns.
    pub record Accomplishes (w : Write) (store : Store S) (out : Result (Unit {0}) × Store S)
        : Type 0 where
      pub done :
          out.0 ≡ ok tt
          → (t j : String)
          → rows_of out.1 t j ≡ specified (fresh_in weight config) w (rows_of store) t j
      pub whole :
          ((t j : String) → rows_of out.1 t j ≡ rows_of store t j)
          ⊎ ((t j : String)
              → rows_of out.1 t j ≡ specified (fresh_in weight config) w (rows_of store) t j)

    -- How a write may end: it returns, and the rows are those that it means; or it raises, and they
    -- are those, or all are as before.
    pub data Refines (w : Write) (store : Store S) (out : Result (Unit {0}) × Store S)
        : Type 0 where
      returned :
          out.0 ≡ ok tt
          → ((t j : String)
              → rows_of out.1 t j ≡ specified (fresh_in weight config) w (rows_of store) t j)
          → Refines w store out
      raised_before :
          (e : Error)
          → out.0 ≡ err e
          → ((t j : String) → rows_of out.1 t j ≡ rows_of store t j)
          → Refines w store out
      raised_after :
          (e : Error)
          → out.0 ≡ err e
          → ((t j : String)
              → rows_of out.1 t j ≡ specified (fresh_in weight config) w (rows_of store) t j)
          → Refines w store out

    Accomplishes-Refines :
        (w : Write) (store : Store S) (out : Result (Unit {0}) × Store S)
        → Accomplishes w store out
        → Refines w store out
    Accomplishes-Refines w store out h = elim (Result-cases out.0) [
      | inl (_, fine) ↦ returned fine (h.done fine)
      | inr (e, failed) ↦ elim h.whole [
        | inl same ↦ raised_before e failed same
        | inr means ↦ raised_after e failed means
      ]
    ]

module _ {S : Type 0} (loads : String → Option (Dict String)) (config : Config)
    (fetch : GetSecretValue S) (now : ℕ) (driver : Driver S) where
  -- The function of each write; the date is the day's.
  unfoldable pub perform : Write → Exec (Store S) (Unit {0})
  perform (upsert t id fields role) =
      upsert_user_profile loads config fetch now driver "" t id fields role
  perform (create t id username email role) =
      create_user_record loads config fetch now driver "" t id username email role
  perform (delete t id hard) = delete_user_record loads config fetch now driver "" t id hard
  perform (enable t id enabled) = set_user_enabled loads config fetch now driver "" t id enabled
  perform (password_changed t id today) =
      mark_password_changed loads config fetch now driver today t id

  -- They are all of one form.
  perform-writing :
      (w : Write)
      → table_for_tenant (tenant_of w) ≡ ok (tenant_of w)
      → (store : Store S)
      → perform w store ≡ (
          if config.demo_mode
          then (ok tt, record store { demo_db = apply w store.demo_db })
          else on_vault
              (in_transaction loads config fetch now driver
                (body_of loads config fetch now driver w))
              store)
  unfolding perform apply upsert_user_profile create_user_record delete_user_record set_user_enabled
      mark_password_changed writing
  perform-writing (upsert t id fields role) h store = rw h refl
  perform-writing (create t id username email role) h store = rw h refl
  perform-writing (delete t id hard) h store = rw h refl
  perform-writing (enable t id enabled) h store = rw h refl
  perform-writing (password_changed t id today) h store = rw h refl

  module _ {weight : String → String} (committed pending : S → Rows)
      (laws : IsDriver weight fetch driver committed pending) where
    in_memory-Accomplishes :
        (w : Write) (store : Store S)
        → config.demo_mode ≡ true
        → HasUniqueKeys (users_of store.demo_db (tenant_of w))
        → Accomplishes config committed weight w store
            (ok tt, record store { demo_db = apply w store.demo_db })
    in_memory-Accomplishes w store demo unique = record { done = λ _. means; whole = inr means }
      where
        means :
            (t j : String)
            → rows_of config committed (record store { demo_db = apply w store.demo_db }) t j
              ≡ specified (fresh_in weight config) w (rows_of config committed store) t j
        means t j = rw demo (apply-written w store.demo_db t j unique)

    in_tables-Accomplishes :
        (w : Write) (store : Store S)
        → config.demo_mode ≡ false
        → Accomplishes config committed weight w store (
            on_vault
              (in_transaction loads config fetch now driver
                (body_of loads config fetch now driver w))
              store)
    in_tables-Accomplishes w store live =
        let settled =
          in_transaction-Settled loads config fetch now driver committed pending laws
            (Does weight w) (body_of loads config fetch now driver w) store.vault
            (body_of-IsBody loads config fetch now driver committed pending laws w) in
        record {
          done = λ e t j. simp live (settled.done e t j);
          whole = elim settled.whole [
            | inl same ↦ inl (λ t j. simp live (ap (λ rows. rows t j) same))
            | inr made ↦ inr (λ t j. simp live (made t j))
          ];
        }

    pub perform-Accomplishes :
        (w : Write) (store : Store S) {table : String}
        → config.demo_mode ≡ false
        → table_for_tenant (tenant_of w) ≡ ok table
        → Accomplishes config committed weight w store (perform w store)
    perform-Accomplishes w store live known =
        let named = known ∙ ap ok (table-tenant (tenant_of w) known) in
        simp (perform-writing w named store, live) (in_tables-Accomplishes w store live)

    perform-Accomplishes_demo :
        (w : Write) (store : Store S) {table : String}
        → config.demo_mode ≡ true
        → table_for_tenant (tenant_of w) ≡ ok table
        → HasUniqueKeys (users_of store.demo_db (tenant_of w))
        → Accomplishes config committed weight w store (perform w store)
    perform-Accomplishes_demo w store demo known unique =
        let named = known ∙ ap ok (table-tenant (tenant_of w) known) in
        simp (perform-writing w named store, demo) (in_memory-Accomplishes w store demo unique)

    -- Each of the functions that write, for a tenant that is allowed, has changed the one row that it
    -- is about, in the way the abstract specification says, whenever it returns: the row under the
    -- identifier, in memory, and under the weight of the identifier in the column's collation, in the
    -- database. When it raises, at
    -- whatever call of the database or of Secrets Manager, the rows of all tenants are as they were,
    -- or the write has been done as a whole. In demo mode a user's key stands once.
    pub perform-Refines :
        (w : Write) (store : Store S) {table : String}
        → table_for_tenant (tenant_of w) ≡ ok table
        → HasUniqueKeys (users_of store.demo_db (tenant_of w))
        → Refines config committed weight w store (perform w store)
    perform-Refines w store known unique =
        Accomplishes-Refines config committed weight w store _ (elim (Bool-cases config.demo_mode) [
          | inl demo ↦ perform-Accomplishes_demo w store demo known unique
          | inr live ↦ perform-Accomplishes w store live known
        ])
