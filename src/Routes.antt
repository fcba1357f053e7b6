-- ===== src/Routes.antt =====
-- What the views of routes/ share: the services behind them, what their pages show, `flask.g`.
pub mod Invariants
pub mod Isolation
pub mod Answers
pub mod Users
pub mod Password
pub mod Admin
pub mod Billing
use secure_multi_tenant_saas.Prelude.{ℕ, String, Bool, true, Option, none, some, List, [], ◌∷◌}
use secure_multi_tenant_saas.Prelude.Exec.{
  Exec, Result, ok, err, Error, attribute_error, raise, modify, ◌>>◌, pure,
}
use secure_multi_tenant_saas.Web.{Identity, World, View, flash}
use secure_multi_tenant_saas.Rds.Row.{UserRow}
use secure_multi_tenant_saas.Rds.Demo.{UserPage}
use secure_multi_tenant_saas.Rds.Users.{UserStore}
use secure_multi_tenant_saas.Cognito.UserPool.{Pool, Client}
use secure_multi_tenant_saas.Kms.{Codecs}

-- The state behind the views: that of rds_service.py, and the users of the pool.
pub record Site (X S : Type 0) : Type 0 where
  pub users : X
  pub pool : Pool S

-- The services; `str` is the text of an exception.
pub record Backend (X S Bytes : Type 0) : Type 0 where
  pub users : UserStore X
  pub client : Client S
  pub codecs : Codecs Bytes
  pub str : Error → String

-- What the pages and the bodies in JSON hold. A person's profile comes with the percentage that is
-- filled in.
pub data Shown (Bill : Type 0) : Type 0 where
  profile : Option Identity → Option UserRow → ℕ → Shown Bill
  api_profile : Option Identity → Option UserRow → Shown Bill
  password_form : Option Identity → Shown Bill
  users_table : (tenant search : String) → UserPage → Option Identity → Shown Bill
  new_user :
      (username email role user_id tenant temp_password : String) → Option Identity → Shown Bill
  bill : Bill → Shown Bill
  status : String → Shown Bill

module _ {X S : Type 0} where
  abbrev pub on_users : {A : Type 0} → Exec X A → Exec (World (Site X S)) A
  on_users m w =
      let (r, x) = m w.services.users in
      (r, record w { services = record w.services { users = x } })

  abbrev pub on_pool : {A : Type 0} → Exec (Pool S) A → Exec (World (Site X S)) A
  on_pool m w =
      let (r, p) = m w.services.pool in (r, record w { services = record w.services { pool = p } })

abbrev map_option : (Identity → Identity) → Option Identity → Option Identity
map_option f none = none
map_option f (some i) = some (f i)

module _ {X : Type 0} where
  abbrev with_identity :
      {A : Type 0} → Option Identity → (Identity → Exec (World X) A) → Exec (World X) A
  with_identity none f = raise attribute_error
  with_identity (some i) f = f i

  -- What is read from `g`, by `g.tenant` and `g.role`.
  abbrev pub with_g : {A : Type 0} → (Identity → Exec (World X) A) → Exec (World X) A
  with_g f w = with_identity w.identity f w

  abbrev change_both : (Identity → Identity) → Option Identity → World X → World X
  change_both f none w = record w { identity = map_option f w.identity }
  change_both f (some i) w = record w {
    session = record w.session { identity = some (f i) };
    identity = some (f i);
  }

  -- `identity[…] = …`: the identity of a session is the dictionary that `g` has too.
  abbrev pub change_identity : (Identity → Identity) → Exec (World X) (Unit {0})
  change_identity f = modify (λ w. change_both f w.session.identity w)

  -- `for e in errors: flash(e, "danger")`
  pub flash_all : List String → Exec (World X) (Unit {0})
  flash_all [] = pure tt
  flash_all (e ∷ errors) = flash e "danger" >> flash_all errors

abbrev pub any_error : Error → Bool
any_error e = true

-- A view of the site, whose pages may show a `Bill`.
abbrev pub Answer : Type 0 → Type 0 → Type 0 → Type 0
Answer X S Bill = View (Site X S) (Shown Bill)
