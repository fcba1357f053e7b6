-- ===== src/Rds/Sql/Written.antt =====
-- rds_service.py: what is done inside each transaction is what the write means.
use secure_multi_tenant_saas.Prelude.{ℕ, String, ◌≡◌, refl, Bool, true, false, Option, inl, inr}
use secure_multi_tenant_saas.Prelude.Dict.{Dict, get}
use secure_multi_tenant_saas.Prelude.Exec.{Result-cases, Exec, continue-eq-ok}
use secure_multi_tenant_saas.Config.{Config}
use secure_multi_tenant_saas.Secrets.{Vault, GetSecretValue}
use secure_multi_tenant_saas.Rds.Row.{set_field, editable_fields}
use secure_multi_tenant_saas.Rds.Demo.Isolation.{
  Write, upsert, create, delete, enable, password_changed,
}
use secure_multi_tenant_saas.Rds.Service.Spec.{written, specified, in_tables}
use secure_multi_tenant_saas.Rds.Sql.{
  Statement, Driver, ignore_reply, save_row, create_row, enable_row, delete_row, mark_row,
}
use secure_multi_tenant_saas.Rds.Sql.Schema.{Rows, effect, set_columns, set_column}
use secure_multi_tenant_saas.Rds.Sql.Connection.{IsDriver}
use secure_multi_tenant_saas.Rds.Sql.Transactions.{IsBody}
use secure_multi_tenant_saas.Rds.Sql.Saved.{save_row-IsBody}

-- The rows after a write are those that it means.
abbrev pub Does : (String → String) → Write → Rows → Rows → Type 0
Does weight w before after = (t j : String) → after t j ≡ specified (in_tables weight) w before t j

-- What a write does inside its transaction, on the table of its tenant.
module _ {S : Type 0} (loads : String → Option (Dict String)) (config : Config)
    (fetch : GetSecretValue S) (now : ℕ) (driver : Driver S) where
  abbrev pub body_of : Write → Exec (Vault S) (Unit {0})
  body_of (upsert t id fields role) =
      save_row loads config fetch now driver t id (editable_fields fields) role
  body_of (create t id username email role) =
      create_row loads config fetch now driver t id username email role
  body_of (delete t id hard) = delete_row loads config fetch now driver t id hard
  body_of (enable t id enabled) = enable_row loads config fetch now driver t id enabled
  body_of (password_changed t id today) = mark_row loads config fetch now driver today t id

  module _ {weight : String → String} (committed pending : S → Rows)
      (laws : IsDriver weight fetch driver committed pending) where
    abbrev Body : (R : Rows → Rows → Type 0) → Exec (Vault S) (Unit {0}) → Type 0
    Body R m = IsBody loads config fetch now driver committed pending laws R m

    -- One statement.
    ignore_reply-Body :
        (R : Rows → Rows → Type 0) (st : Statement)
        → ((rows : Rows) → R rows (effect weight st rows))
        → Body R (ignore_reply loads config fetch now driver st)
    ignore_reply-Body R st h = record {
      still = λ v. elim (Result-cases (driver.execute st v.services).0) [
        | inl (reply, fine) ↦ rw fine (laws.execute_committed st v.services)
        | inr (e, failed) ↦ rw failed (laws.execute_committed st v.services)
      ];
      makes = λ v done.
          let (reply, fine, _) = continue-eq-ok (driver.execute st v.services).0 _ _ done in
          rw (fine, (laws.execute_pending st v.services reply fine).0) (h (pending v.services));
    }

    enable_row-Body :
        (t id : String) (enabled : Bool)
        → Body (Does weight (enable t id enabled)) (body_of (enable t id enabled))
    unfolding enable_row specified written effect set_columns set_column
    enable_row-Body t id enabled = ignore_reply-Body _ _ λ rows u j. refl

    mark_row-Body :
        (t id today : String)
        → Body (Does weight (password_changed t id today)) (body_of (password_changed t id today))
    unfolding mark_row specified written effect set_columns set_column set_field
    mark_row-Body t id today = ignore_reply-Body _ _ λ rows u j. refl

    delete_row-Body :
        (t id : String) (hard : Bool)
        → Body (Does weight (delete t id hard)) (body_of (delete t id hard))
    unfolding delete_row enable_row specified written effect set_columns set_column
    delete_row-Body t id true = ignore_reply-Body _ _ λ rows u j. refl
    delete_row-Body t id false = ignore_reply-Body _ _ λ rows u j. refl

    create_row-Body :
        (t id username email role : String)
        → Body
            (Does weight (create t id username email role))
            (body_of (create t id username email role))
    unfolding create_row specified written effect set_columns set_column set_field get
    create_row-Body t id username email role = ignore_reply-Body _ _ λ rows u j. refl

    pub body_of-IsBody : (w : Write) → Body (Does weight w) (body_of w)
    body_of-IsBody (upsert t id fields role) =
        save_row-IsBody loads config fetch now driver committed pending laws t id fields role
    body_of-IsBody (create t id username email role) = create_row-Body t id username email role
    body_of-IsBody (delete t id hard) = delete_row-Body t id hard
    body_of-IsBody (enable t id enabled) = enable_row-Body t id enabled
    body_of-IsBody (password_changed t id today) = mark_row-Body t id today
