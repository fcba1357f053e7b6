-- ===== src/Rds/Users.antt =====
-- rds_service.py as its callers see it: the operations, on a state of their own, and what a caller
-- may rely on.
use secure_multi_tenant_saas.Prelude.{ℕ, String, ◌≡◌, Bool, false, Option, ◌==◌}
use secure_multi_tenant_saas.Prelude.Dict.{Dict}
use secure_multi_tenant_saas.Prelude.Exec.{Exec}
use secure_multi_tenant_saas.Rds.Row.{UserRow}
use secure_multi_tenant_saas.Rds.Demo.{UserPage}

pub record UserStore (X : Type 0) : Type 0 where
  pub get_user_by_id : (tenant user_id : String) → Exec X (Option UserRow)
  pub get_user_by_username : (tenant : String) → Option String → Exec X (Option UserRow)
  pub list_users : (tenant search : String) (page page_size : ℕ) → Exec X UserPage
  pub upsert_user_profile :
      (tenant user_id : String) → Dict String → (role : String) → Exec X (Unit {0})
  pub create_user_record : (tenant user_id username email role : String) → Exec X (Unit {0})
  pub delete_user_record : (tenant user_id : String) (hard_delete : Bool) → Exec X (Unit {0})
  pub set_user_enabled : (tenant user_id : String) (enabled : Bool) → Exec X (Unit {0})
  pub mark_password_changed : (tenant user_id : String) → Exec X (Unit {0})

module _ {X R : Type 0} (rows : X → String → R) where
  -- The calls that read leave every tenant's users alone.
  abbrev pub Reads : {A : Type 0} → Exec X A → Type 0
  Reads m = (x : X) (u : String) → rows (m x).1 u ≡ rows x u

  -- The calls that write leave the users of the other tenants alone.
  abbrev pub WritesAt : {A : Type 0} → String → Exec X A → Type 0
  WritesAt tenant m = (x : X) (u : String) → (tenant == u) ≡ false → rows (m x).1 u ≡ rows x u

  pub record IsIsolating (users : UserStore X) : Type 0 where
    pub get_user_by_id : (t id : String) → Reads (users.get_user_by_id t id)
    pub get_user_by_username :
        (t : String) (name : Option String) → Reads (users.get_user_by_username t name)
    pub list_users : (t search : String) (n k : ℕ) → Reads (users.list_users t search n k)
    pub upsert_user_profile :
        (t id : String) (fields : Dict String) (role : String)
        → WritesAt t (users.upsert_user_profile t id fields role)
    pub create_user_record :
        (t id name email role : String) → WritesAt t (users.create_user_record t id name email role)
    pub delete_user_record :
        (t id : String) (hard : Bool) → WritesAt t (users.delete_user_record t id hard)
    pub set_user_enabled :
        (t id : String) (enabled : Bool) → WritesAt t (users.set_user_enabled t id enabled)
    pub mark_password_changed : (t id : String) → WritesAt t (users.mark_password_changed t id)
