-- ===== src/Site.antt =====
-- The routes behind their decorators, as app.py registers the blueprints: a request goes to its view,
-- and requests follow one another on the state of the services. Login is in Login.antt.
pub mod Isolation
use secure_multi_tenant_saas.Prelude.{String, Char, Bool, Option, none, List, [], ◌∷◌}
use secure_multi_tenant_saas.Prelude.Exec.{Result}
use secure_multi_tenant_saas.Config.{Config}
use secure_multi_tenant_saas.Web.{Identity, Request, Session, Response, World}
use secure_multi_tenant_saas.Decorators.Gate.{
  Deps, login_required, admin_required, profile_setup_required,
}
use secure_multi_tenant_saas.Billing.Money.{Money}
use secure_multi_tenant_saas.Billing.Usage.{Query}
use secure_multi_tenant_saas.Routes.{Site, Backend, Shown, Answer}
use secure_multi_tenant_saas.Routes.Users
use secure_multi_tenant_saas.Routes.Password
use secure_multi_tenant_saas.Routes.Admin
use secure_multi_tenant_saas.Routes.Billing
use secure_multi_tenant_saas.Routes.Billing.{Bill}

-- The endpoints, with the identifier of a user where the path has one.
pub data Route : Type 0 where
  dashboard user_details_page user_details_update : Route
  password_reset_page password_reset_update : Route
  reset_page reset_submit : Route
  admin_dashboard manage_users_page create_user : Route
  delete_user toggle_user : (user_id : String) → Route
  billing_dashboard billing_usage billing_invoices : Route
  health : Route

-- A request, the session that its cookie holds, and what is read from outside while it is served:
-- the clock, the random texts, the answers of Cognito and DynamoDB.
pub record Visit : Type 0 where
  pub route : Route
  pub request : Request
  pub session : Session
  pub deps : Deps
  pub query : Query
  pub today : String
  pub month : String
  pub sub : String
  pub temp_password : String
  pub fresh_id : String

module _ {X S Bytes : Type 0} (config : Config) (money : Money) (other_digit : Char → Bool)
    (backend : Visit → Backend X S Bytes) where
  abbrev behind_login : Visit → Answer X S (Bill money) → Answer X S (Bill money)
  behind_login v view = login_required config v.deps v.request view

  abbrev behind_admin : Visit → Answer X S (Bill money) → Answer X S (Bill money)
  behind_admin v view = admin_required config v.deps v.request view

  -- The view of a route, decorated.
  view_of : Visit → Route → Answer X S (Bill money)
  view_of v dashboard =
      behind_login v
        (profile_setup_required (Users.dashboard (Bill money) config (backend v) v.request))
  view_of v user_details_page =
      behind_login v (Users.user_details_page (Bill money) config (backend v))
  view_of v user_details_update =
      behind_login v (Users.user_details_update (Bill money) config (backend v) v.request)
  view_of v password_reset_page =
      behind_login v (Users.password_reset_page (Bill money) config (backend v))
  view_of v password_reset_update =
      behind_login v (Users.password_reset_update (Bill money) config (backend v) v.request)
  view_of v reset_page = behind_login v (Password.reset_page (Bill money) config (backend v))
  view_of v reset_submit =
      behind_login v (Password.reset_submit (Bill money) config (backend v) other_digit v.request)
  view_of v admin_dashboard =
      behind_admin v (Admin.dashboard (Bill money) config (backend v) v.request)
  view_of v manage_users_page =
      behind_admin v (Admin.manage_users_page (Bill money) config (backend v) v.request)
  view_of v create_user =
      behind_admin v (
        Admin.create_user (Bill money) config (backend v) v.sub v.temp_password v.fresh_id
          v.request)
  view_of v (delete_user id) =
      behind_admin v (Admin.delete_user (Bill money) config (backend v) id v.request)
  view_of v (toggle_user id) =
      behind_admin v (Admin.toggle_user (Bill money) config (backend v) id v.request)
  view_of v billing_dashboard =
      behind_login v (Billing.dashboard X S config money v.query v.month v.request)
  view_of v billing_usage =
      behind_login v (Billing.usage X S config money v.query v.month v.request)
  view_of v billing_invoices = behind_login v (Billing.invoices X S config money v.query v.month)
  view_of v health = Billing.health

  -- A request is served with its own session, and nobody in `g`.
  unfoldable pub serve :
      Visit → Site X S → Result (Response (Shown (Bill money))) × World (Site X S)
  unfolding view_of
  serve v site =
      view_of v v.route (record { session = v.session; identity = none; services = site })

  unfoldable pub serve_all : List Visit → Site X S → Site X S
  unfolding serve
  serve_all [] site = site
  serve_all (v ∷ visits) site = serve_all visits (serve v site).1.services
