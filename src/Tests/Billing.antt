-- ===== src/Tests/Billing.antt =====
-- Tests of billing_service.py and usage_service.py, with amounts in ten-thousandths of a dollar.
use mathlib.Core.List.{Perm}
use native.Mathlib.Nat.{mul-le-mul_right}
use secure_multi_tenant_saas.Prelude.{
  ℕ, ◌+◌, ◌*◌, ◌/◌, ◌^◌, ◌-◌, ◌≤◌, String, ◌≡◌, refl, ◌⊎◌, Option, none, some, [], ◌∷◌, map, All,
  length, arith,
}
use secure_multi_tenant_saas.Prelude.Text.{text_le, startswith}
use secure_multi_tenant_saas.Prelude.Int.{pos}
use secure_multi_tenant_saas.Web.{Response, page}
use secure_multi_tenant_saas.Billing.Money.{Money, IsMoney}
use secure_multi_tenant_saas.Billing.Usage.{
  AggregateItem, Query, row_of, query_tenant_aggregates, get_tenant_usage,
}
use secure_multi_tenant_saas.Billing.Usage.Order.{
  IsDescending, months, query_tenant_aggregates_sorts,
}
use secure_multi_tenant_saas.Billing.Invoice.{Invoice, calculate_invoice, get_invoices}
use secure_multi_tenant_saas.Billing.Invoice.Charges.{calculate_invoice_mono}
use secure_multi_tenant_saas.Billing.Invoice.History.{periods, get_invoices_history}
use secure_multi_tenant_saas.UsageEvents.{UsageEvent, Outbox, Telemetry, meter_usage}
use secure_multi_tenant_saas.UsageEvents.Billable.{IsBilled, meter_usage_bills}
use secure_multi_tenant_saas.Tests.Fixtures.{live, ann, request}

abbrev pub cents : Money
cents = record {
  Amount = ℕ;
  lit = λ m d. m * 10 ^ (4 - d);
  times = λ n x. n * x;
  plus = λ x y. x + y;
  round2 = λ x. (x + 50) / 100 * 100;
}

round_mono : (x y : ℕ) → x ≤ y → (x + 50) / 100 * 100 ≤ (y + 50) / 100 * 100
round_mono x y h = omega arith

round_exact : (m : ℕ) → (m * 100 + 50) / 100 * 100 ≡ m * 100
round_exact m = omega arith

abbrev cents-IsMoney : IsMoney cents
cents-IsMoney = record {
  AtMost = λ x y. x ≤ y;
  plus_mono = λ x y z h. omega arith;
  times_mono = λ m n a d h. mul-le-mul_right (a * 10 ^ (4 - d)) h;
  round2_mono = round_mono;
  times_zero = λ a d. omega arith;
  plus_zero = λ x. omega arith;
  round2_exact = round_exact;
}

abbrev month_item : String → ℕ → AggregateItem
month_item sk units = record {
  sk = some sk;
  billing_month = none;
  request_count = some (pos 7);
  usage_units = some (pos units);
}

-- Two months of the tenant's, the earlier one first.
abbrev table : Query
table key = some (month_item "MONTH#2026-01" 800 ∷ month_item "MONTH#2026-02" 6000 ∷ [])

abbrev larger : Query
larger key = some (month_item "MONTH#2026-02" 7000 ∷ [])

abbrev february : Option String
february = some "2026-02"

query_tenant_aggregates_sorts_example :
    let rows = query_tenant_aggregates live table "2026-03" "TenantB" in
    Perm rows (map row_of (month_item "MONTH#2026-01" 800 ∷ month_item "MONTH#2026-02" 6000 ∷ []))
    × IsDescending (months rows)
query_tenant_aggregates_sorts_example =
    query_tenant_aggregates_sorts live table "2026-03" "TenantB"
      (month_item "MONTH#2026-01" 800 ∷ month_item "MONTH#2026-02" 6000 ∷ []) refl refl refl

calculate_invoice_mono_example :
    (calculate_invoice cents live table "2026-03" "TenantB" february).total_amount
    ≤ (calculate_invoice cents live larger "2026-03" "TenantB" february).total_amount
unfolding calculate_invoice get_tenant_usage query_tenant_aggregates text_le startswith
calculate_invoice_mono_example =
    calculate_invoice_mono cents cents-IsMoney live "2026-03" "TenantB" table larger february
      (omega arith)

get_invoices_history_example :
    let invoices = get_invoices cents live table "2026-03" "TenantB" 12 in
    (1 ≤ length invoices)
    × (length invoices ≤ 12)
    × All (λ (i : Invoice cents). i.tenant_id ≡ "TenantB") invoices
    × IsDescending (periods cents live table "2026-03" "TenantB" invoices)
unfolding query_tenant_aggregates text_le startswith
get_invoices_history_example =
    get_invoices_history cents live table "2026-03" "TenantB" 12 (omega arith) (refl, (refl, tt))

abbrev pub telemetry : Telemetry
telemetry = record { event_id = "e1"; timestamp = "2026-02-03T00:00:00Z"; send = λ event. none }

abbrev pub outbox : Outbox
outbox = record { queue = []; demo_events = [] }

abbrev pub response : Response String
response = page "users.html" "done"

meter_usage_bills_example :
    let o' = meter_usage live telemetry request (some ann) response outbox in
    (o' ≡ outbox)
    ⊎ ((event : UsageEvent) × IsBilled live telemetry request (some ann) 200 event
        × ((o' ≡ record { queue = event ∷ []; demo_events = [] })
            ⊎ (o' ≡ record { queue = []; demo_events = event ∷ [] })))
meter_usage_bills_example = meter_usage_bills live telemetry request (some ann) response outbox
