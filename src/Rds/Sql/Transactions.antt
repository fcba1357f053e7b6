-- ===== src/Rds/Sql/Transactions.antt =====
-- rds_service.py: a transaction is done as a whole or not at all.
use secure_multi_tenant_saas.Prelude.{ℕ, String, ◌≡◌, ◌∙◌, ◌⊎◌, inl, inr, Option}
use secure_multi_tenant_saas.Prelude.Dict.{Dict}
use secure_multi_tenant_saas.Prelude.Exec.{
  Result-cases, Exec, Result, ok, err, Error, raise, try_except, continue,
}
use secure_multi_tenant_saas.Config.{Config}
use secure_multi_tenant_saas.Secrets.{Vault, GetSecretValue}
use secure_multi_tenant_saas.Rds.Sql.{
  Driver, on_driver, get_connection, closed, finally_close, undo, every, in_transaction, committing,
}
use secure_multi_tenant_saas.Rds.Sql.Schema.{Rows}
use secure_multi_tenant_saas.Rds.Sql.Connection.{
  IsDriver, get_connection-committed, get_connection-pending,
}

module _ {S : Type 0} {weight : String → String} (loads : String → Option (Dict String))
    (config : Config) (fetch : GetSecretValue S) (now : ℕ) (driver : Driver S)
    (committed pending : S → Rows) (laws : IsDriver weight fetch driver committed pending) where
  -- What is done inside a transaction: `R` relates the rows that it sees before and after, and the
  -- committed ones stay.
  pub record IsBody (R : Rows → Rows → Type 0) (m : Exec (Vault S) (Unit {0})) : Type 0 where
    pub still : (v : Vault S) → committed (m v).1.services ≡ committed v.services
    pub makes : (v : Vault S) → (m v).0 ≡ ok tt → R (pending v.services) (pending (m v).1.services)

  -- The end of a transaction that began with the rows `before`: if it returns, it has been done; if
  -- it raises, it has been done as a whole or left nothing.
  pub record Settled (R : Rows → Rows → Type 0) (before : Rows) (out : Result (Unit {0}) × Vault S)
      : Type 0 where
    pub done : out.0 ≡ ok tt → R before (committed out.1.services)
    pub whole : (committed out.1.services ≡ before) ⊎ R before (committed out.1.services)

  closed-ok :
      (r c : Result (Unit {0})) → closed loads config fetch now driver r c ≡ ok tt → r ≡ ok tt
  closed-ok r (ok x) h = h
  closed-ok r (err e) h = cc

  abbrev IsWhole : (R : Rows → Rows → Type 0) (before : Rows) → Vault S → Type 0
  IsWhole R before v = (committed v.services ≡ before) ⊎ R before (committed v.services)

  module _ {R : Rows → Rows → Type 0} {before : Rows} where
    raised-Settled :
        (e : Error) (r : Result (Unit {0})) (v : Vault S)
        → IsWhole R before v
        → Settled R before (continue r (λ _. raise e) v)
    raised-Settled e (ok x) v h = record { done = λ k. cc; whole = h }
    raised-Settled e (err e') v h = record { done = λ k. cc; whole = h }

    undo-Settled :
        (e : Error) (v : Vault S)
        → IsWhole R before v
        → Settled R before (undo loads config fetch now driver e v)
    undo-Settled e v h =
        let (r, s) = driver.rollback v.services in
        raised-Settled e r (record v { services = s }) (rw (laws.rollback_committed v.services) h)

    close-Settled :
        (m : Exec (Vault S) (Unit {0})) (v : Vault S)
        → Settled R before (m v)
        → Settled R before (finally_close loads config fetch now driver m v)
    close-Settled m v h =
        let (r, v') = m v in
        let (c, s) = driver.close v'.services in
        record {
          done = λ e. rw (laws.close_committed v'.services) (h.done (closed-ok r c e));
          whole = rw (laws.close_committed v'.services) h.whole;
        }

    -- After the body, `v` is the state and `pending` what the transaction has made.
    commit-Settled :
        (v : Vault S)
        → committed v.services ≡ before
        → R before (pending v.services)
        → Settled R before (
            try_except
              (on_driver loads config fetch now driver driver.commit)
              (every loads config fetch now driver)
              (undo loads config fetch now driver)
              v)
    commit-Settled v same made = elim (Result-cases (driver.commit v.services).0) [
      | inl (_, fine) ↦ rw fine (record {
        done = λ _. rw (laws.commit_done v.services fine) made;
        whole = inr (rw (laws.commit_done v.services fine) made);
      })
      | inr (e, failed) ↦ rw failed (
          undo-Settled e _ (elim (laws.commit_failed v.services e failed) [
            | inl kept ↦ inl (kept ∙ same)
            | inr done ↦ inr (rw done made)
          ]))
    ]

    body-Settled :
        (m : Exec (Vault S) (Unit {0})) (v : Vault S)
        → IsBody R m
        → committed v.services ≡ before
        → pending v.services ≡ before
        → Settled R before (committing loads config fetch now driver m v)
    body-Settled m v body same fresh = elim (Result-cases (m v).0) [
      | inl (_, fine) ↦
          let made : R before (pending (m v).1.services) = rw⁻¹ fresh (body.makes v fine) in
          rw fine (commit-Settled (m v).1 (body.still v ∙ same) made)
      | inr (e, failed) ↦ rw failed (undo-Settled e (m v).1 (inl (body.still v ∙ same)))
    ]

  -- A transaction.
  pub in_transaction-Settled :
      (R : Rows → Rows → Type 0) (m : Exec (Vault S) (Unit {0})) (v : Vault S)
      → IsBody R m
      → Settled R (committed v.services) (in_transaction loads config fetch now driver m v)
  unfolding in_transaction
  in_transaction-Settled R m v body =
      let (r, v') = get_connection loads config fetch now driver v in
      let same = get_connection-committed loads config fetch now driver committed pending laws v in
      elim (Result-cases (get_connection loads config fetch now driver v).0) [
        | inl (_, fine) ↦ rw fine (
            close-Settled (committing loads config fetch now driver m) v' (
              body-Settled m v' body same (
                get_connection-pending loads config fetch now driver committed pending laws v
                  fine)))
        | inr (e, failed) ↦ rw failed (record { done = λ k. cc; whole = inl same })
      ]
