-- ===== src/Rds/Sql/Connection.antt =====
-- rds_service.py: what is relied on of the database, and the connection.
use secure_multi_tenant_saas.Prelude.{ℕ, String, ◌≡◌, refl, ◌∙◌, ◌⊎◌, inl, inr, Option, none}
use secure_multi_tenant_saas.Prelude.Dict.{Dict, get}
use secure_multi_tenant_saas.Prelude.Exec.{Result, ok, err, Error, continue}
use secure_multi_tenant_saas.Config.{Config}
use secure_multi_tenant_saas.Secrets.{Vault, GetSecretValue, get_secret}
use secure_multi_tenant_saas.Secrets.Cache.{get_secret-services}
use secure_multi_tenant_saas.Rds.Sql.{Statement, Reply, Driver, on_driver, get_connection}
use secure_multi_tenant_saas.Rds.Sql.Schema.{Rows, effect, Answers}

-- What is documented of MySQL and PyMySQL, for the rows that are committed and those that the open
-- transaction sees: a connection starts with the committed ones; a statement changes what its
-- transaction sees, and finds a row by the weight of its key under the column's collation; a commit
-- makes that the committed rows, and one that fails may have been done or not; nothing else changes
-- the committed rows, nor does Secrets Manager.
pub record IsDriver {S : Type 0} (weight : String → String) (fetch : GetSecretValue S)
    (driver : Driver S) (committed pending : S → Rows) : Type 0 where
  pub fetch_committed :
      (region name : String) (s : S) → committed (fetch region name s).1 ≡ committed s
  pub connect_committed :
      (user password : Option String) (s : S)
      → committed (driver.connect user password s).1 ≡ committed s
  pub connect_pending :
      (user password : Option String) (s : S)
      → (driver.connect user password s).0 ≡ ok tt
      → pending (driver.connect user password s).1 ≡ committed s
  pub execute_committed : (st : Statement) (s : S) → committed (driver.execute st s).1 ≡ committed s
  pub execute_pending :
      (st : Statement) (s : S) (reply : Reply)
      → (driver.execute st s).0 ≡ ok reply
      → (pending (driver.execute st s).1 ≡ effect weight st (pending s))
        × Answers weight st (pending s) reply
  pub commit_done :
      (s : S) → (driver.commit s).0 ≡ ok tt → committed (driver.commit s).1 ≡ pending s
  pub commit_failed :
      (s : S) (e : Error)
      → (driver.commit s).0 ≡ err e
      → (committed (driver.commit s).1 ≡ committed s) ⊎ (committed (driver.commit s).1 ≡ pending s)
  pub rollback_committed : (s : S) → committed (driver.rollback s).1 ≡ committed s
  pub close_committed : (s : S) → committed (driver.close s).1 ≡ committed s

module _ {S : Type 0} {weight : String → String} (loads : String → Option (Dict String))
    (config : Config) (fetch : GetSecretValue S) (now : ℕ) (driver : Driver S)
    (committed pending : S → Rows) (laws : IsDriver weight fetch driver committed pending) where
  get_secret-committed :
      (v : Vault S)
      → committed (get_secret loads config fetch now none v).1.services ≡ committed v.services
  get_secret-committed v = elim (get_secret-services loads config fetch now none v) [
    | inl same ↦ rw same refl
    | inr asked ↦ rw asked (laws.fetch_committed _ _ v.services)
  ]

  connect_with-committed :
      (r : Result (Dict String)) (v : Vault S)
      → committed
          (continue r
            (λ secret.
              on_driver loads config fetch now driver
                (driver.connect (get secret "db_username") (get secret "db_password")))
            v).1.services
        ≡ committed v.services
  connect_with-committed (ok secret) v = laws.connect_committed _ _ v.services
  connect_with-committed (err e) v = refl

  pub get_connection-committed :
      (v : Vault S)
      → committed (get_connection loads config fetch now driver v).1.services ≡ committed v.services
  unfolding get_connection
  get_connection-committed v =
      let (r, v') = get_secret loads config fetch now none v in
      connect_with-committed r v' ∙ get_secret-committed v

  connect_with-pending :
      (r : Result (Dict String)) (v : Vault S)
      → let (r', v') =
          continue r
            (λ secret.
              on_driver loads config fetch now driver
                (driver.connect (get secret "db_username") (get secret "db_password")))
            v in
        r' ≡ ok tt → pending v'.services ≡ committed v.services
  connect_with-pending (ok secret) v h = laws.connect_pending _ _ v.services h
  connect_with-pending (err e) v h = cc

  pub get_connection-pending :
      (v : Vault S)
      → let (r, v') = get_connection loads config fetch now driver v in
        r ≡ ok tt → pending v'.services ≡ committed v.services
  unfolding get_connection
  get_connection-pending v h =
      let (r, v') = get_secret loads config fetch now none v in
      connect_with-pending r v' h ∙ get_secret-committed v
