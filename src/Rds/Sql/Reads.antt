-- ===== src/Rds/Sql/Reads.antt =====
-- rds_service.py: the functions that read leave the committed rows alone, and show them.
use secure_multi_tenant_saas.Prelude.{
  ℕ, String, ◌≡◌, refl, sym, ap, ◌∙◌, true, Option, Bool-cases, inl, inr, truthy, truthy?,
}
use secure_multi_tenant_saas.Prelude.Dict.{Dict}
use secure_multi_tenant_saas.Prelude.Exec.{
  Exec, Result, ok, err, pure, continue, ok-injective, continue-eq-ok, ◌>>=◌,
}
use secure_multi_tenant_saas.Config.{Config}
use secure_multi_tenant_saas.Secrets.{Vault, GetSecretValue}
use secure_multi_tenant_saas.Rds.Sql.{
  Statement, select_user, count_matching, select_matching, count_groups, Driver, execute, Reply,
  get_connection, finally_close, closed, reading, select_by, get_user_by_id, get_user_by_username,
  list_users, first_row,
}
use secure_multi_tenant_saas.Rds.Row.{UserRow}
use secure_multi_tenant_saas.Rds.Sql.Schema.{Rows, Answers}
use secure_multi_tenant_saas.Rds.Sql.Connection.{
  IsDriver, get_connection-committed, get_connection-pending,
}

module _ {S : Type 0} {weight : String → String} (loads : String → Option (Dict String))
    (config : Config) (fetch : GetSecretValue S) (now : ℕ) (driver : Driver S)
    (committed pending : S → Rows) (laws : IsDriver weight fetch driver committed pending) where
  -- The committed rows stay.
  pub record Still {A : Type 0} (m : Exec (Vault S) A) : Type 0 where
    pub at : (v : Vault S) → committed (m v).1.services ≡ committed v.services

  Still-pure : {A : Type 0} (a : A) → Still (pure a)
  Still-pure a = record { at = λ v. refl }

  continue-Still :
      {A B : Type 0} (r : Result A) (f : A → Exec (Vault S) B)
      → ((a : A) → Still (f a))
      → Still (continue r f)
  continue-Still (ok a) f h = h a
  continue-Still (err e) f h = record { at = λ v. refl }

  Still-bind :
      {A B : Type 0} (m : Exec (Vault S) A) (f : A → Exec (Vault S) B)
      → Still m
      → ((a : A) → Still (f a))
      → Still (m >>= f)
  Still-bind m f h k = record {
    at = λ v. let (r, v') = m v in (continue-Still r f k).at v' ∙ h.at v;
  }

  Still-execute : (st : Statement) → Still (execute loads config fetch now driver st)
  Still-execute st = record { at = λ v. laws.execute_committed st v.services }

  Still-reading :
      {A : Type 0} (m : Exec (Vault S) A)
      → Still m
      → Still (reading loads config fetch now driver m)
  Still-reading m h =
      Still-bind (get_connection loads config fetch now driver) _
        (record {
          at = get_connection-committed loads config fetch now driver committed pending laws;
        })
        λ _. record { at = λ v. let (r, v') = m v in laws.close_committed v'.services ∙ h.at v }

  select_by-Still :
      (table column value : String)
      → Still (select_by loads config fetch now driver table column value)
  unfolding select_by
  select_by-Still table column value = Still-reading _ (
      Still-bind _ (λ reply. pure (first_row reply.rows))
        (Still-execute (select_user table column value)) λ reply. Still-pure _)

  pub get_user_by_id-Still :
      (table id : String) → Still (get_user_by_id loads config fetch now driver table id)
  unfolding get_user_by_id
  get_user_by_id-Still table id = elim (Bool-cases (truthy id)) [
    | inl given ↦ rw given (select_by-Still table "userId" id)
    | inr empty ↦ rw empty (Still-pure _)
  ]

  pub get_user_by_username-Still :
      (table : String) (name : Option String)
      → Still (get_user_by_username loads config fetch now driver table name)
  unfolding get_user_by_username
  get_user_by_username-Still table name = elim (Bool-cases (truthy? name)) [
    | inl given ↦ rw given (select_by-Still table "username" _)
    | inr empty ↦ rw empty (Still-pure _)
  ]

  pub list_users-Still :
      (table search : String) (n k : ℕ)
      → Still (list_users loads config fetch now driver table search n k)
  unfolding list_users
  list_users-Still table search n k = Still-reading _ (
      Still-bind _ _ (Still-execute (count_matching table _)) λ counted.
        Still-bind _ _ (Still-execute (select_matching table _ _ _))
          λ found. Still-bind _ _ (Still-execute (count_groups table)) λ grouped. Still-pure _)

  closed-eq-ok :
      {A : Type 0} (r : Result A) (c : Result (Unit {0})) {a : A}
      → closed loads config fetch now driver r c ≡ ok a
      → r ≡ ok a
  closed-eq-ok r (ok u) h = h
  closed-eq-ok r (err e) h = cc

  -- A row that is looked up in a table is the committed one.
  select_by-committed :
      (table id : String) (v : Vault S) (found : Option UserRow)
      → (select_by loads config fetch now driver table "userId" id v).0 ≡ ok found
      → found ≡ committed v.services table (weight id)
  unfolding select_by Answers
  select_by-committed table id v found h =
      let m : Exec (Vault S) (Option UserRow) =
        execute loads config fetch now driver (select_user table "userId" id) >>= λ reply.
        pure (first_row reply.rows) in
      let v' = (get_connection loads config fetch now driver v).1 in
      let (u, connected, h') =
        continue-eq-ok (get_connection loads config fetch now driver v).0
          (λ _. finally_close loads config fetch now driver m) v' h in
      let (reply, executed, shown) =
        continue-eq-ok (driver.execute (select_user table "userId" id) v'.services).0
          (λ (reply : Reply). pure (first_row reply.rows))
          (execute loads config fetch now driver (select_user table "userId" id) v').1
          (closed-eq-ok (m v').0 _ h') in
      let (_, answers) =
        laws.execute_pending (select_user table "userId" id) v'.services reply executed in
      sym (ok-injective shown)
      ∙ answers refl
      ∙ ap (λ rows. rows table (weight id))
          (get_connection-pending loads config fetch now driver committed pending laws v connected)

  pub get_user_by_id-committed :
      (table id : String) (v : Vault S) (found : Option UserRow)
      → truthy id ≡ true
      → (get_user_by_id loads config fetch now driver table id v).0 ≡ ok found
      → found ≡ committed v.services table (weight id)
  unfolding get_user_by_id
  get_user_by_id-committed table id v found given h =
      select_by-committed table id v found (rw given at h)
