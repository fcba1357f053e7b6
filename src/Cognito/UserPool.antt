-- ===== src/Cognito/UserPool.antt =====
-- cognito_service.py: the users of the pool. The identifier and the temporary password of a new user
-- are arguments; the client of Cognito is a parameter.
pub mod Groups
use Prim.Native.String
use secure_multi_tenant_saas.Prelude.{
  ℕ, String, Bool, true, false, Option, none, some, List, [], ◌∷◌, if◌then◌else◌,
}
use secure_multi_tenant_saas.Prelude.Dict.{Dict, get, put, pop}
use secure_multi_tenant_saas.Prelude.Exec.{Exec, Result, ok, err, pure, ◌>>◌}
use secure_multi_tenant_saas.Config.{Config}

pub record PoolUser : Type 0 where
  pub sub : String
  pub email : String
  pub group : String
  pub status : String
  pub enabled : Bool

-- `_demo_cognito_users`, and the state of Cognito.
pub record Pool (S : Type 0) : Type 0 where
  pub demo_users : Dict PoolUser
  pub services : S

-- The calls of the client, each on the pool that the settings name.
pub record Client (S : Type 0) : Type 0 where
  pub admin_create_user : (username email temporary_password : String) → S → Result (Unit {0}) × S
  pub admin_add_user_to_group : (username group : String) → S → Result (Unit {0}) × S
  pub admin_delete_user : String → S → Result (Unit {0}) × S
  pub admin_enable_user : String → S → Result (Unit {0}) × S
  pub admin_disable_user : String → S → Result (Unit {0}) × S
  pub change_password :
      (access_token previous_password proposed_password : String) → S → Result (Unit {0}) × S

-- What `create_cognito_user` returns; outside demo mode there is no `sub`.
pub record Created : Type 0 where
  pub username : String
  pub temp_password : String
  pub group : String
  pub sub : Option String

unfoldable pub group_name : String → String → String
group_name tenant role = String.◌++◌ tenant (String.◌++◌ "_" role)

module _ {S : Type 0} (config : Config) (client : Client S) where
  abbrev call : (S → Result (Unit {0}) × S) → Exec (Pool S) (Unit {0})
  call f p = let (r, s) = f p.services in (r, record p { services = s })

  unfoldable pub create_cognito_user :
      (sub temp_password username email tenant role : String) → Exec (Pool S) Created
  create_cognito_user sub temp_password username email tenant role p =
      let group = group_name tenant role in
      let made =
        call (client.admin_create_user username email temp_password)
        >> call (client.admin_add_user_to_group username group)
        >> pure (record {
          username = username;
          temp_password = temp_password;
          group = group;
          sub = none;
        }) in
      let outcome = made p in
      if config.demo_mode
      then (
        ok (record {
          username = username;
          temp_password = temp_password;
          group = group;
          sub = some sub;
        }),
        record p {
          demo_users = put p.demo_users username (record {
            sub = sub;
            email = email;
            group = group;
            status = "FORCE_CHANGE_PASSWORD";
            enabled = true;
          });
        },
      )
      else outcome

  unfoldable pub delete_cognito_user : String → Exec (Pool S) (Unit {0})
  delete_cognito_user username p =
      if config.demo_mode
      then (ok tt, record p { demo_users = pop p.demo_users username })
      else call (client.admin_delete_user username) p

  enable_found : String → Bool → Option PoolUser → Pool S → Pool S
  enable_found username enabled none p = p
  enable_found username enabled (some u) p = record p {
    demo_users = put p.demo_users username (record u { enabled = enabled });
  }

  unfoldable pub set_user_enabled : String → Bool → Exec (Pool S) (Unit {0})
  unfolding enable_found
  set_user_enabled username enabled p =
      if config.demo_mode
      then (ok tt, enable_found username enabled (get p.demo_users username) p)
      else if enabled
      then call (client.admin_enable_user username) p
      else call (client.admin_disable_user username) p

  unfoldable pub change_password :
      (access_token previous_password proposed_password : String) → Exec (Pool S) (Unit {0})
  change_password access_token previous_password proposed_password p =
      if config.demo_mode
      then (ok tt, p)
      else call (client.change_password access_token previous_password proposed_password) p
