-- ===== src/Tests/Site.antt =====
-- Tests of the routes, of rds_service.py with a database, of kms_service.py and app.py.
use secure_multi_tenant_saas.Prelude.{
  String, ◌≡◌, refl, ap, ◌⊎◌, Bool, true, false, Option, none, some, [], ◌∷◌, truthy,
}
use secure_multi_tenant_saas.Prelude.Text.{after_prefix, strip}
use secure_multi_tenant_saas.Prelude.Dict.{Dict, get}
use secure_multi_tenant_saas.Prelude.Exec.{Result, ok, err, value_error, ok-injective}
use secure_multi_tenant_saas.Config.{Config}
use secure_multi_tenant_saas.Web.{Identity, Request, World}
use secure_multi_tenant_saas.Decorators.Identify.{resolve_identity}
use secure_multi_tenant_saas.Secrets.{get_secret}
use secure_multi_tenant_saas.Rds.Row.{UserRow}
use secure_multi_tenant_saas.Rds.Service.{Store, rds_service}
use secure_multi_tenant_saas.Rds.Service.Refinement.{rows_of}
use secure_multi_tenant_saas.Kms.{Codecs, encrypt_field, decrypt_field}
use secure_multi_tenant_saas.Kms.Inverse.{HasInverses, decrypt_field-encrypt_field}
use secure_multi_tenant_saas.App.{
  RuntimeSecrets, load_runtime_secrets, configured_key, client_secret,
}
use secure_multi_tenant_saas.App.Key.{secret_key-shared}
use secure_multi_tenant_saas.Routes.{Site, Backend}
use secure_multi_tenant_saas.Routes.Answers.{AnswersAt, forms-Answer}
use secure_multi_tenant_saas.Routes.Users
use secure_multi_tenant_saas.Routes.Users.{resolve_user_id, current_identity, readable}
use secure_multi_tenant_saas.Routes.Users.Saved.{readable-encrypt_field}
use secure_multi_tenant_saas.Routes.Password
use secure_multi_tenant_saas.Routes.Password.Rules.{
  OnlyFlashes, IsAcceptable, reset_submit-IsAcceptable,
}
use secure_multi_tenant_saas.Routes.Admin
use secure_multi_tenant_saas.Site.{Visit, toggle_user, serve_all}
use secure_multi_tenant_saas.Site.Isolation.{IsForeign, caller, requests-isolated}
use secure_multi_tenant_saas.Tests.Fixtures.{live, deps, ann, request, signed_in}
use secure_multi_tenant_saas.Tests.Access.{client}
use secure_multi_tenant_saas.Tests.Billing.{cents}
use secure_multi_tenant_saas.Tests.Writes.{vault, store}
use secure_multi_tenant_saas.Tests.Database.{Base, driver, fetch, loads, driver-IsDriver}

-- KMS and base64, each with a letter for its mark.
abbrev rest_of : String → Result String
rest_of String.[] = err value_error
rest_of (String.◌∷◌ c s) = ok s

abbrev codecs : Codecs String
codecs = record {
  encode = λ s. s;
  decode = λ s. ok s;
  b64encode = λ b. String.◌∷◌ "b" b;
  b64decode = rest_of;
  kms_encrypt = λ key b. ok (String.◌∷◌ "k" b);
  kms_decrypt = λ key b. rest_of b;
}

codecs-HasInverses : HasInverses codecs
unfolding after_prefix
codecs-HasInverses = record {
  utf8 = λ s. refl;
  base64 = λ b. refl;
  kms = λ key b blob h. rw⁻¹ (ok-injective h) (refl, refl);
  alphabet = λ b. (refl, refl);
}

abbrev with_key : Config
with_key = record live { kms_key_id = "key" }

encrypted : encrypt_field with_key codecs "555" ≡ ok "bk555"
unfolding encrypt_field
encrypted = refl

decrypt_field-encrypt_field_example : decrypt_field with_key codecs "bk555" ≡ ok "555"
decrypt_field-encrypt_field_example =
    decrypt_field-encrypt_field with_key codecs codecs-HasInverses "555" "bk555" encrypted

abbrev runtime : RuntimeSecrets
runtime = record { secret_key = "signing key"; cognito_app_client_secret = "" }

loaded : (load_runtime_secrets loads live fetch 5000000 [] "random" vault).0 ≡ ok runtime
unfolding load_runtime_secrets configured_key client_secret get_secret get strip
loaded = refl

secret_key-shared_example :
    (bundle : Dict String) × ((get_secret loads live fetch 5000000 none vault).0 ≡ ok bundle)
    × (configured_key bundle [] ≡ some "signing key")
    × (truthy "signing key" ≡ true)
    × ((token : String)
        → load_runtime_secrets loads live fetch 5000000 [] token vault
          ≡ load_runtime_secrets loads live fetch 5000000 [] "random" vault)
secret_key-shared_example =
    secret_key-shared loads live fetch 5000000 [] vault "random" runtime refl loaded

-- An administrator of one tenant names a user of the other.
abbrev reaching : Visit
reaching = record {
  route = toggle_user "u2";
  request = request;
  session = signed_in;
  deps = deps;
  query = λ key. none;
  today = "2026-01-31";
  month = "2026-01";
  sub = "s1";
  temp_password = "Abcdefgh1!";
  fresh_id = "f1";
}

abbrev tenant_in : Result (Option Identity) → String
tenant_in (ok (some i)) = i.tenant
tenant_in (ok none) = ""
tenant_in (err e) = ""

ann-named : (i : Identity) → caller live reaching ≡ ok (some i) → "TenantA" ≡ i.tenant
unfolding resolve_identity
ann-named i e = ap tenant_in e

reaching-IsForeign : IsForeign live "TenantB" reaching
unfolding resolve_identity get
reaching-IsForeign = record { scoped = refl; other = λ i e. rw⁻¹ (ann-named i e) refl }

abbrev site : Site (Store Base) Bool
site = record { users = store; pool = record { demo_users = []; services = false } }

abbrev backend : Visit → Backend (Store Base) Bool String
backend v = record {
  users = rds_service loads live fetch v.deps.now driver v.today;
  client = client;
  codecs = codecs;
  str = λ e. "";
}

requests-isolated_example :
    rows_of live
      (λ s. s.committed)
      (serve_all live cents (λ c. false) backend (reaching ∷ []) site).users
      "TenantB"
    ≡ rows_of live (λ s. s.committed) site.users "TenantB"
requests-isolated_example =
    requests-isolated live cents (λ c. false) loads fetch driver client codecs (λ e. "")
      (λ s. s.committed) (λ s. s.pending) driver-IsDriver "TenantB" (reaching ∷ []) site
      (reaching-IsForeign, tt)

abbrev saved : UserRow
saved = record {
  user_id = "u1";
  username = "Ann";
  email = "ann@a.test";
  role = "user";
  phone = "bk555";
  department = "Sales";
  profile_image = none;
  enabled = true;
  password_last_changed = "2026-01-31";
  first_login = false;
}

readable-encrypt_field_example :
    readable Bool with_key (backend reaching) (some saved) ≡ ok (some saved)
readable-encrypt_field_example =
    readable-encrypt_field Bool with_key (backend reaching) codecs-HasInverses saved "555" "bk555"
      encrypted

-- A form about nobody, whose password is too short.
abbrev weak : Request
weak = record request { form = ("new_password", "short") ∷ ("confirm_password", "short") ∷ [] }

abbrev world : World (Site (Store Base) Bool)
world = record { session = signed_in; identity = some ann; services = site }

own_id : resolve_user_id (current_identity world) ≡ ok "u1"
unfolding resolve_user_id current_identity
own_id = refl

forms-Answer_example :
    AnswersAt String live
      (backend reaching)
      world
      (Admin.create_user String live (backend reaching) "s1" "Abcdefgh1!" "f1" weak)
    × AnswersAt String live
        (backend reaching)
        world
        (Admin.delete_user String live (backend reaching) "u2" weak)
    × AnswersAt String live
        (backend reaching)
        world
        (Admin.toggle_user String live (backend reaching) "u2" weak)
    × AnswersAt String live
        (backend reaching)
        world
        (Users.user_details_update String live (backend reaching) weak)
    × AnswersAt String live
        (backend reaching)
        world
        (Users.password_reset_update String live (backend reaching) weak)
    × AnswersAt String live
        (backend reaching)
        world
        (Password.reset_submit String live (backend reaching) (λ c. false) weak)
forms-Answer_example =
    forms-Answer String live (backend reaching) weak (λ c. false) "u2" "s1" "Abcdefgh1!" "f1" world
      ann ann refl refl own_id

reset_submit-IsAcceptable_example :
    OnlyFlashes world
      (Password.reset_submit String live (backend reaching) (λ c. false) weak world).1
    ⊎ IsAcceptable (λ c. false) weak
reset_submit-IsAcceptable_example =
    reset_submit-IsAcceptable String live (backend reaching) (λ c. false) weak world
