-- ===== src/Tests/Metered.antt =====
-- A test of billing_service.py over the tables that handler.py writes.
use secure_multi_tenant_saas.Prelude.{
  String, ◌≡◌, refl, sym, ◌∙◌, false, inl, inr, Option, none, some, List, [], ◌∷◌, map, ◌==◌,
  eq_iff, arith, Bool-cases,
}
use secure_multi_tenant_saas.Prelude.Dict.{Dict, get}
use secure_multi_tenant_saas.Config.{Config}
use secure_multi_tenant_saas.Metering.Store.{UsageItem, Total}
use secure_multi_tenant_saas.Metering.Handler.{month_key, handler}
use secure_multi_tenant_saas.Metering.Handler.Rollup.{rollup, handler-IsConsistent}
use secure_multi_tenant_saas.Billing.Usage.{Query, partition_key, get_tenant_usage}
use secure_multi_tenant_saas.Billing.Invoice.{calculate_invoice}
use secure_multi_tenant_saas.Billing.Metered.{ReadsTable, aggregate_item, usage_of, invoice-metered}
use secure_multi_tenant_saas.Tests.Fixtures.{live}
use secure_multi_tenant_saas.Tests.Billing.{cents}
use secure_multi_tenant_saas.Tests.Metering.{
  Memory, empty, tables, tables-Dynamo, working, january, shown, now, batch, consistent,
}

abbrev table : Config
table = record live { usage_aggregate_table = "aggregate" }

abbrev after : Memory
after = (handler january shown now (tables false) batch empty).1

-- All timestamps are of one month, so a partition has one item at most.
abbrev entries_of : Option Total → Dict Total
entries_of none = []
entries_of (some t) = ("2026-01", t) ∷ []

abbrev kept : String → Dict Total
kept pk = entries_of (after.totals pk (month_key "2026-01"))

abbrev answers : Query
answers pk = some (map aggregate_item (kept pk))

other_month :
    (pk month : String) (items : List UsageItem)
    → ("2026-01" == month) ≡ false
    → rollup january pk month items ≡ none
unfolding rollup
other_month pk month [] h = refl
other_month pk month (item ∷ items) h = ground (arith, h, other_month pk month items h)

get-entries_of :
    (o : Option Total) (month : String)
    → ("2026-01" == month) ≡ false
    → get (entries_of o) month ≡ none
unfolding get
get-entries_of none month h = refl
get-entries_of (some t) month h = rw h refl

own_month : (o : Option Total) → get (entries_of o) "2026-01" ≡ o
unfolding get
own_month none = refl
own_month (some t) = refl

kept-after : (pk month : String) → get (kept pk) month ≡ after.totals pk (month_key month)
kept-after pk month = elim (Bool-cases ("2026-01" == month)) [
  | inl same ↦
      rw⁻¹ ((eq_iff "2026-01" month).0 same) (own_month (after.totals pk (month_key "2026-01")))
  | inr other ↦
      get-entries_of (after.totals pk (month_key "2026-01")) month other
      ∙ sym (
          handler-IsConsistent (tables-Dynamo false) working january shown now batch empty
            (consistent false) pk month
          ∙ other_month pk month after.items other)
]

answers-ReadsTable : ReadsTable (tables-Dynamo false) after answers
answers-ReadsTable = record { entries = kept; answer = λ pk. refl; listed = kept-after }

invoice-metered_example :
    let usage =
      usage_of "2026-01" (rollup january (partition_key "TenantA") "2026-01" after.items) in
    (get_tenant_usage table answers "2026-02" "TenantA" (some "2026-01") ≡ usage)
    × ((calculate_invoice cents table answers "2026-02" "TenantA" (some "2026-01")).usage_units
        ≡ usage.usage_units)
invoice-metered_example =
    invoice-metered (tables-Dynamo false) working january shown now batch empty (consistent false)
      answers answers-ReadsTable cents table refl refl "2026-02" "TenantA" "2026-01" refl
