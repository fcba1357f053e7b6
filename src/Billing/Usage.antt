-- ===== src/Billing/Usage.antt =====
-- billing_service.py: the usage of a tenant, read from the aggregate. `now` is the current month,
-- as `current_billing_period` returns it.
pub mod Order
use Prim.Native.String
use secure_multi_tenant_saas.Prelude.{
  ℕ, zero, suc, String, Bool, true, false, Option, none, some, List, [], ◌∷◌, map, ◌==◌, truthy?,
  truthy, or_empty, get_or, if◌then◌else◌,
}
use secure_multi_tenant_saas.Prelude.Text.{startswith, text_le}
use secure_multi_tenant_saas.Prelude.Dict.{Dict, get}
use secure_multi_tenant_saas.Prelude.Int.{ℤ, pos}
use secure_multi_tenant_saas.Config.{Config}

-- The attributes of an aggregate item; one that is absent is `none`.
pub record AggregateItem : Type 0 where
  pub sk : Option String
  pub billing_month : Option String
  pub request_count : Option ℤ
  pub usage_units : Option ℤ

-- The query for one partition key; `none` is a `BotoCoreError` or `ClientError`.
abbrev pub Query : Type 0
Query = String → Option (List AggregateItem)

pub record UsageRow : Type 0 where
  pub billing_month : String
  pub request_count : ℤ
  pub usage_units : ℤ

-- `s.replace("MONTH#", "")`: the number of characters still to be left out goes along.
without_month : ℕ → String → String
without_month skip String.[] = String.[]
without_month (suc skip) (String.◌∷◌ c s) = without_month skip s
without_month zero (String.◌∷◌ c s) =
    let kept = without_month zero s in
    let cut = without_month 5 s in
    if startswith (String.◌∷◌ c s) "MONTH#" then cut else String.◌∷◌ c kept

abbrev or_month_of_key : Option String → Option String → String
or_month_of_key none sk = without_month zero (or_empty sk)
or_month_of_key (some month) sk = month

unfoldable pub row_of : AggregateItem → UsageRow
unfolding without_month
row_of item = record {
  billing_month = or_month_of_key item.billing_month item.sk;
  request_count = get_or item.request_count (pos 0);
  usage_units = get_or item.usage_units (pos 0);
}

-- Sorting by month, latest first; rows of one month keep their order.
unfoldable pub insert_row : UsageRow → List UsageRow → List UsageRow
insert_row r [] = r ∷ []
insert_row r (x ∷ rows) =
    if text_le x.billing_month r.billing_month then r ∷ x ∷ rows else x ∷ insert_row r rows

unfoldable pub sort_rows : List UsageRow → List UsageRow
unfolding insert_row
sort_rows [] = []
sort_rows (r ∷ rows) = insert_row r (sort_rows rows)

abbrev demo_usage_by_tenant : Dict ℤ
demo_usage_by_tenant = ("TenantA", pos 24850) ∷ ("TenantB", pos 3120) ∷ []

abbrev rows_of : Option (List AggregateItem) → List UsageRow
rows_of none = []
rows_of (some items) = sort_rows (map row_of items)

abbrev pub partition_key : String → String
partition_key tenant = String.◌++◌ "TENANT#" tenant

abbrev demo_row : String → ℤ → UsageRow
demo_row now units = record { billing_month = now; request_count = units; usage_units = units }

unfoldable pub query_tenant_aggregates : Config → Query → String → String → List UsageRow
unfolding sort_rows row_of
query_tenant_aggregates config query now tenant =
    if config.demo_mode
    then demo_row now (get_or (get demo_usage_by_tenant tenant) (pos 500)) ∷ []
    else if truthy config.usage_aggregate_table
    then rows_of (query (partition_key tenant))
    else []

-- `period or current_billing_period()`
abbrev pub period_or_now : Option String → String → String
period_or_now none now = now
period_or_now (some p) now = if truthy p then p else now

unfoldable pub find_period : String → List UsageRow → UsageRow
find_period period [] = record {
  billing_month = period;
  request_count = pos 0;
  usage_units = pos 0;
}
find_period period (row ∷ rows) =
    let rest = find_period period rows in if row.billing_month == period then row else rest

unfoldable pub get_tenant_usage : Config → Query → String → String → Option String → UsageRow
unfolding find_period
get_tenant_usage config query now tenant period =
    find_period (period_or_now period now) (query_tenant_aggregates config query now tenant)
