-- ===== src/Site/Isolation.antt =====
-- The whole site: requests on behalf of other tenants do not change a tenant's users.
use secure_multi_tenant_saas.Prelude.{
  String, Char, ◌≡◌, refl, ◌∙◌, Bool, false, Option, none, some, List, [], ◌∷◌, All, ◌==◌,
}
use secure_multi_tenant_saas.Prelude.Dict.{Dict}
use secure_multi_tenant_saas.Prelude.Exec.{Result, ok, Error, pure}
use secure_multi_tenant_saas.Config.{Config}
use secure_multi_tenant_saas.Web.{Identity, Response, World}
use secure_multi_tenant_saas.Decorators.Identify.{resolve_identity}
use secure_multi_tenant_saas.Decorators.Identify.Scope.{IsScoped?}
use secure_multi_tenant_saas.Decorators.Gate.{login_required, admin_required}
use secure_multi_tenant_saas.Decorators.Gate.Access.{
  Guarded, raised, refused, entered, login_required-Guarded, admin_required-Guarded,
}
use secure_multi_tenant_saas.Billing.Money.{Money}
use secure_multi_tenant_saas.Secrets.{GetSecretValue}
use secure_multi_tenant_saas.Kms.{Codecs}
use secure_multi_tenant_saas.Cognito.UserPool.{Client}
use secure_multi_tenant_saas.Rds.Sql.{Driver}
use secure_multi_tenant_saas.Rds.Sql.Schema.{Rows}
use secure_multi_tenant_saas.Rds.Sql.Connection.{IsDriver}
use secure_multi_tenant_saas.Rds.Service.{Store, rds_service}
use secure_multi_tenant_saas.Rds.Service.Refinement.{rows_of}
use secure_multi_tenant_saas.Rds.Service.Isolation.{rds_service-IsIsolating}
use secure_multi_tenant_saas.Rds.Users.{IsIsolating}
use secure_multi_tenant_saas.Routes.{Site, Backend, Shown, Answer, with_g}
use secure_multi_tenant_saas.Routes.Invariants.{Keeps-pure}
use secure_multi_tenant_saas.Routes.Billing
use secure_multi_tenant_saas.Routes.Billing.{Bill}
use secure_multi_tenant_saas.Routes.Isolation.{Kept, with_g-Kept, views_kept}
use secure_multi_tenant_saas.Site.{
  Route, billing_dashboard, billing_usage, billing_invoices, health, Visit, view_of, serve,
  serve_all,
}

-- Whom the decorators take a request to come from.
abbrev pub caller : Config → Visit → Result (Option Identity)
caller config v = resolve_identity config v.deps.jwt v.deps.now v.request v.session

-- The request comes from nobody, or from somebody of another tenant than `u`; the session's
-- identity, if it has one, has the tenant and the role of its group.
pub record IsForeign (config : Config) (u : String) (v : Visit) : Type 0 where
  pub scoped : IsScoped? v.session.identity
  pub other : (i : Identity) → caller config v ≡ ok (some i) → (i.tenant == u) ≡ false

module _ {X S Bytes R : Type 0} (config : Config) (money : Money) (other_digit : Char → Bool)
    (backend : Visit → Backend X S Bytes) (rows : X → String → R)
    (laws : (v : Visit) → IsIsolating rows (backend v).users) (u : String) (v : Visit)
    (site : Site X S) (foreign : IsForeign config u v) where
  abbrev Unmoved : Answer X S (Bill money) → Type 0
  Unmoved view = Kept (Bill money) config (backend v) rows (laws v) u (rows site.users u) view

  abbrev world : World (Site X S)
  world = record { session = v.session; identity = none; services = site }

  Guarded-same :
      {P : Identity → Type 0} (view : Answer X S (Bill money))
      (out : Result (Response (Shown (Bill money))) × World (Site X S))
      → ((i : Identity) → P i → (i.tenant == u) ≡ false)
      → Unmoved view
      → Guarded P view world out
      → rows out.1.services.users u ≡ rows site.users u
  Guarded-same view out other kept (raised e w' h untouched) = rw (h, untouched.services) refl
  Guarded-same view out other kept (refused r w' h refusal untouched) =
      rw (h, untouched.services) refl
  Guarded-same view out other kept (entered i w' h p g same) =
      rw h (kept.at w' i g (other i p) (rw same refl))

  login-same :
      (view : Answer X S (Bill money))
      → Unmoved view
      → rows (login_required config v.deps v.request view world).1.services.users u
        ≡ rows site.users u
  login-same view kept =
      Guarded-same view _ (λ i p. foreign.other i p.0) kept
        (login_required-Guarded config v.deps v.request view world foreign.scoped)

  admin-same :
      (view : Answer X S (Bill money))
      → Unmoved view
      → rows (admin_required config v.deps v.request view world).1.services.users u
        ≡ rows site.users u
  admin-same view kept =
      Guarded-same view _ (λ i p. foreign.other i p.0) kept
        (admin_required-Guarded config v.deps v.request view world foreign.scoped)

  -- The billing pages touch no users.
  shown-Unmoved : (f : Identity → Response (Shown (Bill money))) → Unmoved (with_g λ g. pure (f g))
  shown-Unmoved f =
      with_g-Kept (Bill money) config (backend v) rows (laws v) u _ _ λ g other. Keeps-pure (f g)

  view_of-same :
      (route : Route)
      → rows (view_of config money other_digit backend v route world).1.services.users u
        ≡ rows site.users u
  unfolding view_of Billing.dashboard Billing.usage Billing.invoices Billing.health
  view_of-same billing_dashboard = login-same _ (shown-Unmoved _)
  view_of-same billing_usage = login-same _ (shown-Unmoved _)
  view_of-same billing_invoices = login-same _ (shown-Unmoved _)
  view_of-same health = refl
  view_of-same _ = search (views_kept, login-same, admin-same)

  serve-same :
      rows (serve config money other_digit backend v site).1.services.users u ≡ rows site.users u
  unfolding serve
  serve-same = view_of-same v.route

-- On any store of users that keeps the calls for one tenant from the users of the others.
serve_all-isolated :
    {X S Bytes R : Type 0} (config : Config) (money : Money) (other_digit : Char → Bool)
    (backend : Visit → Backend X S Bytes) (rows : X → String → R)
    (laws : (v : Visit) → IsIsolating rows (backend v).users) (u : String) (visits : List Visit)
    (site : Site X S)
    → All (IsForeign config u) visits
    → rows (serve_all config money other_digit backend visits site).users u ≡ rows site.users u
unfolding serve_all
serve_all-isolated config money other_digit backend rows laws u [] site h = refl
serve_all-isolated config money other_digit backend rows laws u (v ∷ visits) site h =
    serve_all-isolated config money other_digit backend rows laws u visits _ h.1
    ∙ serve-same config money other_digit backend rows laws u v site h.0

-- No sequence of requests by nobody or by people of other tenants changes a tenant's users, whatever
-- routes they take, whatever their forms hold and whatever Cognito, KMS, Secrets Manager and the
-- database answer, refused and failed requests included: in demo mode the users in memory are as
-- before, else the committed rows, if the database does what is documented of it. A session's
-- identity has the tenant and role of its group.
pub requests-isolated :
    {S C Bytes : Type 0} {weight : String → String} (config : Config) (money : Money)
    (other_digit : Char → Bool) (loads : String → Option (Dict String)) (fetch : GetSecretValue S)
    (driver : Driver S) (client : Client C) (codecs : Codecs Bytes) (str : Error → String)
    (committed pending : S → Rows) (laws : IsDriver weight fetch driver committed pending)
    (u : String) (visits : List Visit) (site : Site (Store S) C)
    → All (IsForeign config u) visits
    → let backend : Visit → Backend (Store S) C Bytes = λ v. record {
      users = rds_service loads config fetch v.deps.now driver v.today;
      client = client;
      codecs = codecs;
      str = str;
    } in
      rows_of config committed (serve_all config money other_digit backend visits site).users u
      ≡ rows_of config committed site.users u
requests-isolated config money other_digit loads fetch driver client codecs str committed pending
      laws u visits site foreign =
    serve_all-isolated config money other_digit _ (rows_of config committed)
      (λ v.
        rds_service-IsIsolating loads config fetch v.deps.now driver committed pending laws v.today)
      u visits site foreign
