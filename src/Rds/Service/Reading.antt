-- ===== src/Rds/Service/Reading.antt =====
-- rds_service.py: what a user who is looked up is shown, also after a write.
use secure_multi_tenant_saas.Prelude.{
  ℕ, String, ◌≡◌, refl, sym, ap, ◌∙◌, true, false, Option, Bool-cases, inl, inr, truthy, eq_refl,
}
use secure_multi_tenant_saas.Prelude.Dict.{Dict, HasUniqueKeys}
use secure_multi_tenant_saas.Prelude.Exec.{ok, ok-injective}
use secure_multi_tenant_saas.Config.{Config}
use secure_multi_tenant_saas.Secrets.{GetSecretValue}
use secure_multi_tenant_saas.Rds.Row.{UserRow, table_for_tenant}
use secure_multi_tenant_saas.Rds.Demo.{users_of}
use secure_multi_tenant_saas.Rds.Demo.Isolation.{Write, tenant_of}
use secure_multi_tenant_saas.Rds.Demo
use secure_multi_tenant_saas.Rds.Sql
use secure_multi_tenant_saas.Rds.Sql.{Driver}
use secure_multi_tenant_saas.Rds.Sql.Schema.{Rows}
use secure_multi_tenant_saas.Rds.Sql.Connection.{IsDriver}
use secure_multi_tenant_saas.Rds.Sql.Reads.{get_user_by_id-committed}
use secure_multi_tenant_saas.Rds.Sql.Columns.{table-tenant}
use secure_multi_tenant_saas.Rds.Service.{Store, on_vault, get_user_by_id}
use secure_multi_tenant_saas.Rds.Service.Spec.{user_of, written, specified}
use secure_multi_tenant_saas.Rds.Service.Refinement.{
  rows_of, fresh_in, perform, returned, raised_before, raised_after, perform-Refines,
}

module _ {S : Type 0} {weight : String → String} (loads : String → Option (Dict String))
    (config : Config) (fetch : GetSecretValue S) (now : ℕ) (driver : Driver S)
    (committed pending : S → Rows) (laws : IsDriver weight fetch driver committed pending) where
  get_user_by_id-live :
      (tenant id : String) (store : Store S)
      → config.demo_mode ≡ false
      → table_for_tenant tenant ≡ ok tenant
      → get_user_by_id loads config fetch now driver "" tenant id store
        ≡ on_vault (Sql.get_user_by_id loads config fetch now driver tenant id) store
  unfolding get_user_by_id
  get_user_by_id-live tenant id store live named = simp (live, named) refl

  -- A user who is looked up is shown as the rows have it.
  get_user_by_id-rows_of :
      (tenant id : String) (store : Store S) (found : Option UserRow) {table : String}
      → table_for_tenant tenant ≡ ok table
      → truthy id ≡ true
      → (get_user_by_id loads config fetch now driver "" tenant id store).0 ≡ ok found
      → found ≡ rows_of config committed store tenant ((fresh_in weight config).key id)
  unfolding get_user_by_id Demo.get_user_by_id
  get_user_by_id-rows_of tenant id store found known given h =
      let named = known ∙ ap ok (table-tenant tenant known) in
      elim (Bool-cases config.demo_mode) [
        | inl demo ↦ rw demo (sym (ok-injective (rw (demo, named) at h)))
        | inr live ↦ rw live (
            get_user_by_id-committed loads config fetch now driver committed pending laws tenant id
              store.vault found given
              (sym (ap (λ o. o.0) (get_user_by_id-live tenant id store live named)) ∙ h))
      ]

  -- The user whom a write that returns was about is shown, by the next lookup that returns, as the
  -- abstract specification has the row, from the one that was there before: in memory the row under
  -- the identifier, in the database the one under its weight in the column's collation. The tenant
  -- is allowed and the identifier not empty. In demo mode a user's key stands once.
  pub perform-read_back :
      (w : Write) (store : Store S) (found : Option UserRow) {table : String}
      → table_for_tenant (tenant_of w) ≡ ok table
      → HasUniqueKeys (users_of store.demo_db (tenant_of w))
      → truthy (user_of w) ≡ true
      → let (r, store') = perform loads config fetch now driver w store in
        r ≡ ok tt
        → (get_user_by_id loads config fetch now driver "" (tenant_of w) (user_of w) store').0
          ≡ ok found
        → found
          ≡ written (fresh_in weight config) w (
              rows_of config committed store
                (tenant_of w)
                ((fresh_in weight config).key (user_of w)))
  unfolding specified
  perform-read_back w store found known unique given performed h =
      let store' = (perform loads config fetch now driver w store).1 in
      get_user_by_id-rows_of (tenant_of w) (user_of w) store' found known given h
      ∙ elim (perform-Refines loads config fetch now driver committed pending laws w store known
          unique) [
            | returned _ rows ↦ rows (tenant_of w) _ ∙ rw (eq_refl, eq_refl) refl
            | raised_before e failed _ ↦ cc
            | raised_after e failed _ ↦ cc
          ]
