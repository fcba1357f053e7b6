-- ===== src/Metering/Handler/Keys.antt =====
-- handler.py: the keys that an event is stored under.
use Prim.Native.String.{count}
use text.Mathlib.TextLemmas.{append_cancel_left, append_inj}
use secure_multi_tenant_saas.Prelude.{
  String, ◌≡◌, ap, Option, some, ◌==◌, eq_iff, arith, Bool-cases, inl, inr,
}
use secure_multi_tenant_saas.Prelude.Dict.{Dict}
use secure_multi_tenant_saas.Prelude.Exec.{ok}
use secure_multi_tenant_saas.Metering.Json.{Json}
use secure_multi_tenant_saas.Metering.Event.{with_offset}
use secure_multi_tenant_saas.Metering.Store.{UsageItem}
use secure_multi_tenant_saas.Metering.Handler.{
  partition_key, usage_key, month_key, billing_month, read_event, accept_event,
}

-- The key of an event in the ledger determines its tenant, its month and its identifier, for months
-- that are written with equally many characters.
pub usage_key-injective :
    (t u m n i j : String)
    → partition_key t ≡ partition_key u
    → usage_key m i ≡ usage_key n j
    → count m ≡ count n
    → (t ≡ u) × (m ≡ n) × (i ≡ j)
usage_key-injective t u m n i j p q e =
    let (month, rest) = append_inj (append_cancel_left "USAGE#" _ _ q) e in
    (append_cancel_left "TENANT#" t u p, month, append_cancel_left "#" i j rest)

pub month_key-eq : (m n : String) → (month_key m == month_key n) ≡ (m == n)
month_key-eq m n = elim (Bool-cases (m == n)) [
  | inl same ↦ ground (arith, eq_iff m n, eq_iff (month_key m) (month_key n), ap month_key)
  | inr other ↦
      ground
        (arith, eq_iff m n, eq_iff (month_key m) (month_key n), append_cancel_left "MONTH#" m n)
]

-- What an accepted event is stored as.
pub record IsReadAs (month_of : String → Option String) (item : UsageItem) (month : String)
    : Type 0 where
  pub pk : item.pk ≡ partition_key item.tenant_id
  pub dated : month_of (with_offset item.event_timestamp) ≡ some month

module _ (month_of : String → Option String) (str_of : Json → String) (now : String) where
  pub accept_event-IsReadAs :
      (event : Dict Json) (item : UsageItem) (month : String)
      → accept_event month_of str_of now event ≡ ok (item, month)
      → IsReadAs month_of item month
  unfolding accept_event read_event billing_month
  accept_event-IsReadAs event item month h = ground arith
