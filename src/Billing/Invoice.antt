-- ===== src/Billing/Invoice.antt =====
-- billing_service.py: plans and invoices.
pub mod Charges
pub mod History
use secure_multi_tenant_saas.Prelude.{
  ℕ, ◌-◌, String, Bool, true, false, Option, none, some, List, [], ◌∷◌, map, take, get_or, nonempty,
  if◌then◌else◌,
}
use secure_multi_tenant_saas.Prelude.Dict.{Dict, get}
use secure_multi_tenant_saas.Prelude.Int.{ℤ, pos, negsuc}
use secure_multi_tenant_saas.Config.{Config, PlanName, named, other_json}
use secure_multi_tenant_saas.Billing.Money.{Money}
use secure_multi_tenant_saas.Billing.Usage.{
  Query, UsageRow, query_tenant_aggregates, period_or_now, get_tenant_usage,
}

-- `max(0, used - included)`
abbrev pub overage : ℤ → ℕ → ℕ
overage (pos used) included = used - included
overage (negsuc n) included = 0

-- A plan. Its base amount is in hundredths, its rate in ten-thousandths.
pub record Plan : Type 0 where
  pub display_name : String
  pub base_amount : ℕ
  pub included_requests : ℕ
  pub overage_rate : ℕ

abbrev pub basic : Plan
basic = record {
  display_name = "Basic";
  base_amount = 1000;
  included_requests = 5000;
  overage_rate = 35;
}

abbrev pub plan_catalog : Dict Plan
plan_catalog =
    ("Basic", basic)
    ∷ (
      "Pro",
      record {
        display_name = "Pro";
        base_amount = 3000;
        included_requests = 20000;
        overage_rate = 25;
      },
    )
    ∷ (
      "Enterprise",
      record {
        display_name = "Enterprise";
        base_amount = 10000;
        included_requests = 100000;
        overage_rate = 15;
      },
    )
    ∷ []

abbrev plan_name_for : Config → String → PlanName
plan_name_for config tenant = get_or (get config.billing_plan_map tenant) (named "Basic")

abbrev catalog_plan : PlanName → Plan
catalog_plan (named name) = get_or (get plan_catalog name) basic
catalog_plan other_json = basic

unfoldable pub plan_for_tenant : Config → String → PlanName × Plan
plan_for_tenant config tenant =
    (plan_name_for config tenant, catalog_plan (plan_name_for config tenant))

module _ (money : Money) where
  open money use {Amount, lit, times, plus, round2}

  pub record Invoice : Type 0 where
    pub tenant_id : String
    pub billing_period : String
    pub plan_name : PlanName
    pub plan_display_name : String
    pub included_requests : ℕ
    pub usage_units : ℤ
    pub overage_units : ℕ
    pub base_amount : Amount
    pub usage_amount : Amount
    pub total_amount : Amount
    pub overage_rate : Amount

  -- The arithmetic of `calculate_invoice`.
  price : String → String → PlanName × Plan → ℤ → Invoice
  price tenant period (name, plan) used =
      let units = overage used plan.included_requests in
      let usage_amount = round2 (times units (lit plan.overage_rate 4)) in
      record {
        tenant_id = tenant;
        billing_period = period;
        plan_name = name;
        plan_display_name = plan.display_name;
        included_requests = plan.included_requests;
        usage_units = used;
        overage_units = units;
        base_amount = lit plan.base_amount 2;
        usage_amount = usage_amount;
        total_amount = round2 (plus (lit plan.base_amount 2) usage_amount);
        overage_rate = lit plan.overage_rate 4;
      }

  unfoldable pub calculate_invoice : Config → Query → String → String → Option String → Invoice
  unfolding price
  calculate_invoice config query now tenant period =
      price tenant (period_or_now period now) (plan_for_tenant config tenant)
        (get_tenant_usage config query now tenant (some (period_or_now period now))).usage_units

  abbrev invoice_for_row : Config → Query → String → String → UsageRow → Invoice
  invoice_for_row config query now tenant row =
      calculate_invoice config query now tenant (some row.billing_month)

  unfoldable pub get_invoices : Config → Query → String → String → ℕ → List Invoice
  get_invoices config query now tenant limit =
      let periods = query_tenant_aggregates config query now tenant in
      if nonempty periods
      then map (invoice_for_row config query now tenant) (take limit periods)
      else calculate_invoice config query now tenant (some now) ∷ []
