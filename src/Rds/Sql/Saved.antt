-- ===== src/Rds/Sql/Saved.antt =====
-- rds_service.py: a profile that is saved, inside its transaction.
use secure_multi_tenant_saas.Prelude.{
  ℕ, String, ◌≡◌, refl, ap, ◌∙◌, Bool, true, false, Option, none, some, [], ◌∷◌, ◌&&◌, ◌==◌, inl,
  inr, Bool-cases, nonempty, is_some, eqb, eq_iff, arith, if◌then◌else◌,
}
use secure_multi_tenant_saas.Prelude.Dict.{Dict}
use secure_multi_tenant_saas.Prelude.Exec.{
  Exec, Result, ok, err, pure, continue, continue-eq-ok, ◌>>=◌,
}
use secure_multi_tenant_saas.Config.{Config}
use secure_multi_tenant_saas.Secrets.{Vault, GetSecretValue}
use secure_multi_tenant_saas.Rds.Row.{UserRow, editable_fields, update_row}
use secure_multi_tenant_saas.Rds.Demo.Isolation.{upsert}
use secure_multi_tenant_saas.Rds.Service.Spec.{written, specified, in_tables}
use secure_multi_tenant_saas.Rds.Sql.{
  Statement, lock_user, update_user, insert_user, as_texts, insert_fields, Reply, Driver, execute,
  check_rowcount, save_row,
}
use secure_multi_tenant_saas.Rds.Sql.Schema.{Rows, effect, Answers}
use secure_multi_tenant_saas.Rds.Sql.Connection.{IsDriver}
use secure_multi_tenant_saas.Rds.Sql.Transactions.{IsBody}
use secure_multi_tenant_saas.Rds.Sql.Columns.{set_columns-texts, key_of-insert_fields}

module _ (weight : String → String) (before now_seen : Rows)
    (same : (u j : String) → now_seen u j ≡ before u j) (t id : String) (fields : Dict String)
    (role : String) where
  abbrev edited : Dict String
  edited = editable_fields fields

  abbrev meant : Rows
  meant u j = specified (in_tables weight) (upsert t id fields role) before u j

  row-here : (u j : String) → (t == u && weight id == j) ≡ true → before u j ≡ before t (weight id)
  row-here u j here = ground (arith, eq_iff t u, eq_iff (weight id) j)

  update-means :
      (row : UserRow)
      → before t (weight id) ≡ some row
      → (u j : String) → effect weight (update_user t (as_texts edited) id) now_seen u j ≡ meant u j
  unfolding effect specified written
  update-means row found u j = elim (Bool-cases (t == u && weight id == j)) [
    | inl here ↦
        rw (here, same u j, row-here u j here, found) (ap some (set_columns-texts edited row))
    | inr there ↦ rw (there, same u j) refl
  ]

  nothing-means :
      (row : UserRow)
      → before t (weight id) ≡ some row
      → nonempty edited ≡ false
      → (u j : String) → now_seen u j ≡ meant u j
  unfolding specified written update_row
  nothing-means row found empty u j = elim (Bool-cases (t == u && weight id == j)) [
    | inl here ↦ rw (here, same u j, row-here u j here, found) (ap some (unedited edited empty))
    | inr there ↦ rw (there, same u j) refl
  ]
    where
      unedited : (fields : Dict String) → nonempty fields ≡ false → row ≡ update_row fields row
      unedited [] h = refl
      unedited (f ∷ fields) h = cc

  insert-means :
      before t (weight id) ≡ none
      → (u j : String)
      → effect weight (insert_user t (insert_fields edited id role)) now_seen u j ≡ meant u j
  unfolding effect specified written
  insert-means absent u j =
      let key = key_of-insert_fields edited id role in
      elim (Bool-cases (t == u && weight id == j)) [
        | inl here ↦ rw (key, here, row-here u j here, absent) refl
        | inr there ↦ rw (key, there, same u j) refl
      ]

module _ {S : Type 0} {weight : String → String} (loads : String → Option (Dict String))
    (config : Config) (fetch : GetSecretValue S) (now : ℕ) (driver : Driver S)
    (committed pending : S → Rows) (laws : IsDriver weight fetch driver committed pending)
    (t id : String) (fields : Dict String) (role : String) where
  abbrev Meant : Rows → Rows → Type 0
  Meant before after =
      (u j : String) → after u j ≡ specified (in_tables weight) (upsert t id fields role) before u j

  -- A statement whose `rowcount` is looked at.
  abbrev checked : Statement → Exec (Vault S) (Unit {0})
  checked st =
      execute loads config fetch now driver st >>= check_rowcount loads config fetch now driver

  check-still :
      (r : Result Reply) (v : Vault S)
      → (continue r (check_rowcount loads config fetch now driver) v).1 ≡ v
  check-still (ok reply) v = elim (Bool-cases (eqb reply.rowcount 0)) [
    | inl zero ↦ rw zero refl
    | inr positive ↦ rw positive refl
  ]
  check-still (err e) v = refl

  checked-still :
      (st : Statement) (v : Vault S) → committed (checked st v).1.services ≡ committed v.services
  checked-still st v =
      let (r, s) = driver.execute st v.services in
      ap (λ v'. committed v'.services) (check-still r (record v { services = s }))
      ∙ laws.execute_committed st v.services

  checked-pending :
      (st : Statement) (v : Vault S)
      → (checked st v).0 ≡ ok tt
      → pending (checked st v).1.services ≡ effect weight st (pending v.services)
  checked-pending st v done =
      let (r, s) = driver.execute st v.services in
      let (reply, fine, _) = continue-eq-ok r _ (record v { services = s }) done in
      ap (λ v'. pending v'.services) (check-still r (record v { services = s }))
      ∙ (laws.execute_pending st v.services reply fine).0

  -- What is done once the row has been looked for: is it there, and is there a field to set?
  abbrev after_lock : Bool → Bool → Exec (Vault S) (Unit {0})
  after_lock found fielded =
      if found
      then if fielded
        then checked (update_user t (as_texts (editable_fields fields)) id)
        else pure tt
      else checked (insert_user t (insert_fields (editable_fields fields) id role))

  after_lock-still :
      (found fielded : Bool) (v : Vault S)
      → committed (after_lock found fielded v).1.services ≡ committed v.services
  after_lock-still true true v = checked-still _ v
  after_lock-still true false v = refl
  after_lock-still false _ v = checked-still _ v

  found-row : (o : Option UserRow) → true ≡ is_some o → (row : UserRow) × (o ≡ some row)
  found-row none h = cc
  found-row (some row) h = (row, refl)

  no-row : (o : Option UserRow) → false ≡ is_some o → o ≡ none
  no-row none h = refl
  no-row (some row) h = cc

  after_lock-makes :
      (before : Rows) (found fielded : Bool) (v : Vault S)
      → ((u j : String) → pending v.services u j ≡ before u j)
      → found ≡ is_some (before t (weight id))
      → nonempty (editable_fields fields) ≡ fielded
      → (after_lock found fielded v).0 ≡ ok tt
      → Meant before (pending (after_lock found fielded v).1.services)
  after_lock-makes before true true v same h k done u j =
      let (row, there) = found-row (before t (weight id)) h in
      ap (λ rows. rows u j) (checked-pending _ v done)
      ∙ update-means weight before (pending v.services) same t id fields role row there u j
  after_lock-makes before true false v same h k done u j =
      let (row, there) = found-row (before t (weight id)) h in
      nothing-means weight before (pending v.services) same t id fields role row there k u j
  after_lock-makes before false _ v same h k done u j =
      ap (λ rows. rows u j) (checked-pending _ v done)
      ∙ insert-means weight before (pending v.services) same t id fields role
          (no-row (before t (weight id)) h) u j

  abbrev rest : Reply → Exec (Vault S) (Unit {0})
  rest existing = after_lock (nonempty existing.ids) (nonempty (editable_fields fields))

  rest-still :
      (r : Result Reply) (v : Vault S)
      → committed (continue r rest v).1.services ≡ committed v.services
  rest-still (ok existing) v = after_lock-still (nonempty existing.ids) _ v
  rest-still (err e) v = refl

  pub save_row-IsBody :
      IsBody loads config fetch now driver committed pending laws Meant
        (save_row loads config fetch now driver t id (editable_fields fields) role)
  unfolding save_row effect Answers
  save_row-IsBody = record {
    still = λ v.
        let (r, s) = driver.execute (lock_user t id) v.services in
        rest-still r (record v { services = s })
        ∙ laws.execute_committed (lock_user t id) v.services;
    makes = λ v done.
        let (r, s) = driver.execute (lock_user t id) v.services in
        let v' = record v { services = s } in
        let (existing, fine, rested) = continue-eq-ok r rest v' done in
        let (seen, locked) = laws.execute_pending (lock_user t id) v.services existing fine in
        rw fine (
          after_lock-makes (pending v.services) (nonempty existing.ids) _ v'
            (λ u j. ap (λ rows. rows u j) seen) locked refl rested);
  }
