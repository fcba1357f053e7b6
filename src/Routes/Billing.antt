-- ===== src/Routes/Billing.antt =====
-- Flask app/tenant-saas-app-fixed/tenant-saas-app/routes/billing.py and routes/health.py: the
-- invoices of the tenant that `g` names, and the check of health. `now` is the current month.
use secure_multi_tenant_saas.Prelude.{ℕ, String, some, List, truthy, get_or, if◌then◌else◌}
use secure_multi_tenant_saas.Prelude.Int.{ℤ}
use secure_multi_tenant_saas.Prelude.Text.{strip}
use secure_multi_tenant_saas.Prelude.Dict.{get}
use secure_multi_tenant_saas.Prelude.Exec.{pure}
use secure_multi_tenant_saas.Config.{Config}
use secure_multi_tenant_saas.Web.{Identity, Request, page, json, View}
use secure_multi_tenant_saas.Billing.Money.{Money}
use secure_multi_tenant_saas.Billing.Usage.{Query}
use secure_multi_tenant_saas.Billing.Invoice.{Invoice, calculate_invoice, get_invoices}
use secure_multi_tenant_saas.Routes.{Site, Answer, Shown, bill, status, with_g}

-- What the pages of billing.py show, and what the two routes in JSON answer.
pub data Bill (money : Money) : Type 0 where
  billing_page :
      (invoice : Invoice money) (invoices : List (Invoice money)) (current_period : String)
      → Bill money
  usage_of :
      (tenant_id billing_period plan : String) (included_requests : ℕ) (usage_units : ℤ)
      (overage_units : ℕ)
      → Bill money
  invoices_of : (tenant_id : String) (invoices : List (Invoice money)) → Bill money

module _ (X S : Type 0) (config : Config) (money : Money) (query : Query) (now : String) where
  -- `request.args.get("period", "").strip() or current_billing_period()`
  abbrev period_of : Request → String
  period_of request =
      let period = strip (get_or (get request.args "period") "") in
      if truthy period then period else now

  abbrev invoice_of : Request → Identity → Invoice money
  invoice_of request g =
      calculate_invoice money config query now g.tenant (some (period_of request))

  unfoldable pub dashboard : Request → Answer X S (Bill money)
  dashboard request = with_g λ g. pure (
      page "billing_dashboard.html" (
        bill (
          billing_page (invoice_of request g) (get_invoices money config query now g.tenant 12)
            now)))

  abbrev usage_body : Invoice money → Bill money
  usage_body i =
      usage_of i.tenant_id i.billing_period i.plan_display_name i.included_requests i.usage_units
        i.overage_units

  unfoldable pub usage : Request → Answer X S (Bill money)
  usage request = with_g λ g. pure (json 200 (bill (usage_body (invoice_of request g))))

  unfoldable pub invoices : Answer X S (Bill money)
  invoices = with_g λ g.
      pure
        (json 200 (bill (invoices_of g.tenant (get_invoices money config query now g.tenant 12))))

-- The only route without a decorator.
unfoldable pub health : {X S Bill : Type 0} → View (Site X S) (Shown Bill)
health = pure (json 200 (status "healthy"))
