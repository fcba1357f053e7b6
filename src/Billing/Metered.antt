-- ===== src/Billing/Metered.antt =====
-- billing_service.py over the tables that metering_lambda/handler.py writes: what is invoiced is
-- what has been metered.
use secure_multi_tenant_saas.Prelude.{
  String, ◌≡◌, refl, ap, ◌∙◌, true, false, inl, inr, Option, none, some, List, [], ◌∷◌, map, ◌==◌,
  eq_iff, arith, Bool-cases, truthy, if◌then◌else◌,
}
use secure_multi_tenant_saas.Prelude.Text.{text_le, text_le_refl}
use secure_multi_tenant_saas.Prelude.Dict.{Dict, get}
use secure_multi_tenant_saas.Prelude.Int.{pos}
use secure_multi_tenant_saas.Config.{Config}
use secure_multi_tenant_saas.Metering.Json.{Json}
use secure_multi_tenant_saas.Metering.Store.{Total, Ops, Dynamo}
use secure_multi_tenant_saas.Metering.Handler.{Message, month_key, handler}
use secure_multi_tenant_saas.Metering.Handler.Rollup.{
  IsConsistent, IsReliable, rollup, handler-IsConsistent,
}
use secure_multi_tenant_saas.Billing.Money.{Money}
use secure_multi_tenant_saas.Billing.Usage.{
  AggregateItem, Query, UsageRow, row_of, insert_row, sort_rows, partition_key,
  query_tenant_aggregates, find_period, get_tenant_usage,
}
use secure_multi_tenant_saas.Billing.Invoice.{calculate_invoice}

-- The item that `update_item` of handler.py leaves for a month.
abbrev pub aggregate_item : String × Total → AggregateItem
aggregate_item (month, t) = record {
  sk = some (month_key month);
  billing_month = some month;
  request_count = some (pos t.request_count);
  usage_units = some t.usage_units;
}

-- The query answers, for a partition, with the items that stand in the aggregate table.
pub record ReadsTable {S : Type 0} {ops : Ops S} (D : Dynamo ops) (s : S) (query : Query)
    : Type 0 where
  pub entries : String → Dict Total
  pub answer : (pk : String) → query pk ≡ some (map aggregate_item (entries pk))
  pub listed : (pk month : String) → get (entries pk) month ≡ D.total s pk (month_key month)

-- The usage of a month that has a total, or has none.
abbrev pub usage_of : String → Option Total → UsageRow
usage_of month none = record { billing_month = month; request_count = pos 0; usage_units = pos 0 }
usage_of month (some t) = record {
  billing_month = month;
  request_count = pos t.request_count;
  usage_units = t.usage_units;
}

find_period-insert_row :
    (period : String) (r : UsageRow) (rows : List UsageRow)
    → find_period period (insert_row r rows) ≡ find_period period (r ∷ rows)
unfolding find_period insert_row
find_period-insert_row period r [] = refl
find_period-insert_row period r (x ∷ rows) =
    elim (Bool-cases (text_le x.billing_month r.billing_month)) [
      | inl le ↦ rw le refl
      | inr gt ↦ rw gt (
          ground (
            arith,
            find_period-insert_row period r rows,
            eq_iff r.billing_month period,
            eq_iff x.billing_month period,
            text_le_refl x.billing_month,
          ))
    ]

-- Sorting does not change which row of a month is found.
find_period-sort_rows :
    (period : String) (rows : List UsageRow)
    → find_period period (sort_rows rows) ≡ find_period period rows
unfolding find_period sort_rows
find_period-sort_rows period [] = refl
find_period-sort_rows period (r ∷ rows) =
    find_period-insert_row period r (sort_rows rows)
    ∙ ap (λ found. if r.billing_month == period then r else found)
        (find_period-sort_rows period rows)

find_period-entries :
    (period : String) (entries : Dict Total)
    → find_period period (map row_of (map aggregate_item entries))
      ≡ usage_of period (get entries period)
unfolding find_period row_of get
find_period-entries period [] = refl
find_period-entries period ((month, t) ∷ entries) =
    ground (arith, eq_iff month period, find_period-entries period entries)

-- What is read of a tenant's month is what the table holds.
get_tenant_usage-total :
    {S : Type 0} {ops : Ops S} (D : Dynamo ops) (s : S) (query : Query)
    → ReadsTable D s query
    → (config : Config) → config.demo_mode ≡ false
    → truthy config.usage_aggregate_table ≡ true
    → (now tenant period : String) → truthy period ≡ true
    → get_tenant_usage config query now tenant (some period)
      ≡ usage_of period (D.total s (partition_key tenant) (month_key period))
unfolding get_tenant_usage query_tenant_aggregates
get_tenant_usage-total D s query r config live table now tenant period named =
    let pk = partition_key tenant in
    rw
      (
        named,
        live,
        table,
        r.answer pk,
        find_period-sort_rows period (map row_of (map aggregate_item (r.entries pk))),
        find_period-entries period (r.entries pk),
        r.listed pk period,
      )
      refl

module _ {S : Type 0} {ops : Ops S} (D : Dynamo ops) (reliable : IsReliable D)
    (month_of : String → Option String) (str_of : Json → String) (time : String) where
  -- After any batch, if no update of the aggregate fails and a failed PutItem has not been applied,
  -- a tenant's usage of a month counts the ledger's items of the tenant and the month and adds up
  -- their units, and the invoice charges these units: outside demo mode, with the aggregate table
  -- configured, if the query answers with the table's items and all was consistent before.
  pub invoice-metered :
      (messages : List Message) (s : S)
      → IsConsistent D month_of s
      → (query : Query)
      → let s' = (handler month_of str_of time ops messages s).1 in
        ReadsTable D s' query
        → (money : Money) (config : Config) → config.demo_mode ≡ false
        → truthy config.usage_aggregate_table ≡ true
        → (now tenant period : String) → truthy period ≡ true
        → let s' = (handler month_of str_of time ops messages s).1 in
          let usage =
            usage_of period (rollup month_of (partition_key tenant) period (D.ledger s')) in
          (get_tenant_usage config query now tenant (some period) ≡ usage)
          × ((calculate_invoice money config query now tenant (some period)).usage_units
              ≡ usage.usage_units)
  unfolding calculate_invoice
  invoice-metered messages s c query r money config live table now tenant period named =
      let s' = (handler month_of str_of time ops messages s).1 in
      let read =
        get_tenant_usage-total D s' query r config live table now tenant period named
        ∙ ap (usage_of period) (
            handler-IsConsistent D reliable month_of str_of time messages s c (partition_key tenant)
              period) in
      (read, rw (named, read) refl)
