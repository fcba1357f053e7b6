-- ===== src/Billing/Invoice/Charges.antt =====
-- billing_service.py: what an invoice charges, and whose usage it charges for.
use secure_multi_tenant_saas.Prelude.{ℕ, ◌+◌, ◌≤◌, String, ◌≡◌, Option, arith}
use secure_multi_tenant_saas.Prelude.Int.{ℤ, pos, pos_part, neg_part}
use secure_multi_tenant_saas.Config.{Config}
use secure_multi_tenant_saas.Billing.Money.{Money, IsMoney}
use secure_multi_tenant_saas.Billing.Usage.{Query}
use secure_multi_tenant_saas.Billing.Invoice.{Invoice, overage, plan_for_tenant, calculate_invoice}

infix 50 ◌≤ℤ◌
abbrev pub ◌≤ℤ◌ : ℤ → ℤ → Type 0
a ≤ℤ b = pos_part a + neg_part b ≤ pos_part b + neg_part a

overage_mono : (a b : ℤ) (included : ℕ) → a ≤ℤ b → overage a included ≤ overage b included
overage_mono a b included h = ground arith

overage-eq-zero : (a : ℤ) (included : ℕ) → a ≤ℤ pos included → overage a included ≡ 0
overage-eq-zero a included h = ground arith

module _ (money : Money) (M : IsMoney money) (config : Config) (now tenant : String) where
  open money use {Amount, lit, times, plus, round2}

  abbrev invoice : Query → Option String → Invoice money
  invoice query period = calculate_invoice money config query now tenant period

  -- More usage never costs less: under one plan and for one period, an invoice for more units has
  -- a total that is at least as high.
  pub calculate_invoice_mono :
      (query query' : Query) (period : Option String)
      → (invoice query period).usage_units ≤ℤ (invoice query' period).usage_units
      → IsMoney.AtMost M (invoice query period).total_amount (invoice query' period).total_amount
  unfolding calculate_invoice
  calculate_invoice_mono query query' period h = M.round2_mono _ _ (
      M.plus_mono _ _ _ (
        M.round2_mono _ _ (
          M.times_mono _ _ _ _
            (overage_mono _ _ (plan_for_tenant config tenant).1.included_requests h))))

  -- Within the requests that the plan includes, the total is the plan's base amount.
  pub calculate_invoice_within :
      (query : Query) (period : Option String)
      → (invoice query period).usage_units ≤ℤ pos (invoice query period).included_requests
      → ((invoice query period).overage_units ≡ 0)
        × ((invoice query period).total_amount ≡ (invoice query period).base_amount)
  unfolding calculate_invoice
  calculate_invoice_within query period h =
      let e = overage-eq-zero _ _ h in
      (e, rw (e, M.times_zero, M.round2_exact, M.plus_zero, M.round2_exact))
