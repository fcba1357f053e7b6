-- ===== src/Billing/Usage/Order.antt =====
-- billing_service.py: the order of the rows of the aggregate, and the row of a period.
use mathlib.Core.List.{Perm}
use mathlib.Core.List.Perm
use secure_multi_tenant_saas.Prelude.{
  String, ◌≡◌, refl, true, false, inl, inr, Option, none, some, List, [], ◌∷◌, map, arith,
  Bool-cases, truthy,
}
use secure_multi_tenant_saas.Prelude.Text.{text_le}
use secure_multi_tenant_saas.Config.{Config}
use secure_multi_tenant_saas.Billing.Usage.{
  AggregateItem, Query, UsageRow, row_of, rows_of, insert_row, sort_rows, query_tenant_aggregates,
  partition_key,
}

text_le-total : (s t : String) → text_le s t ≡ false → text_le t s ≡ true
unfolding text_le
text_le-total String.[] t h = cc
text_le-total (String.◌∷◌ c s) String.[] h = refl
text_le-total (String.◌∷◌ c s) (String.◌∷◌ d t) h = ground (arith, text_le-total s t)

-- Each text is at most the one before it.
abbrev pub IsDescending : List String → Type 0
IsDescending [] = Unit
IsDescending (s ∷ []) = Unit
IsDescending (s ∷ t ∷ r) = (text_le t s ≡ true) × IsDescending (t ∷ r)

abbrev pub months : List UsageRow → List String
months [] = []
months (r ∷ rows) = r.billing_month ∷ months rows

-- The first text of a list is at most `s`.
abbrev StartsBelow : String → List String → Type 0
StartsBelow s [] = Unit
StartsBelow s (t ∷ r) = text_le t s ≡ true

IsDescending-cons :
    (s : String) (r : List String) → StartsBelow s r → IsDescending r → IsDescending (s ∷ r)
IsDescending-cons s [] b d = tt
IsDescending-cons s (t ∷ r) b d = (b, d)

IsDescending-tail :
    (s : String) (r : List String) → IsDescending (s ∷ r) → StartsBelow s r × IsDescending r
IsDescending-tail s [] d = (tt, tt)
IsDescending-tail s (t ∷ r) d = d

insert_row-StartsBelow :
    (s : String) (r : UsageRow) (rows : List UsageRow)
    → text_le r.billing_month s ≡ true
    → StartsBelow s (months rows)
    → StartsBelow s (months (insert_row r rows))
unfolding insert_row
insert_row-StartsBelow s r [] h b = h
insert_row-StartsBelow s r (x ∷ rows) h b =
    elim (Bool-cases (text_le x.billing_month r.billing_month)) [
      | inl le ↦ rw le h
      | inr gt ↦ rw gt b
    ]

insert_row-IsDescending :
    (r : UsageRow) (rows : List UsageRow)
    → IsDescending (months rows)
    → IsDescending (months (insert_row r rows))
unfolding insert_row
insert_row-IsDescending r [] d = tt
insert_row-IsDescending r (x ∷ rows) d =
    elim (Bool-cases (text_le x.billing_month r.billing_month)) [
      | inl le ↦ rw le (le, d)
      | inr gt ↦
          let (b, d') = IsDescending-tail x.billing_month (months rows) d in
          rw gt (
            IsDescending-cons x.billing_month (months (insert_row r rows))
              (insert_row-StartsBelow x.billing_month r rows (text_le-total _ _ gt) b)
              (insert_row-IsDescending r rows d'))
    ]

insert_row-perm : (r : UsageRow) (rows : List UsageRow) → Perm (insert_row r rows) (r ∷ rows)
unfolding insert_row
insert_row-perm r [] = Perm.refl (r ∷ [])
insert_row-perm r (x ∷ rows) = elim (Bool-cases (text_le x.billing_month r.billing_month)) [
  | inl le ↦ rw le (Perm.refl (r ∷ x ∷ rows))
  | inr gt ↦ rw gt (Perm.trans (Perm.cons x (insert_row-perm r rows)) (Perm.swap r x rows))
]

sort_rows-IsDescending : (rows : List UsageRow) → IsDescending (months (sort_rows rows))
unfolding sort_rows
sort_rows-IsDescending [] = tt
sort_rows-IsDescending (r ∷ rows) =
    insert_row-IsDescending r (sort_rows rows) (sort_rows-IsDescending rows)

sort_rows-perm : (rows : List UsageRow) → Perm (sort_rows rows) rows
unfolding sort_rows
sort_rows-perm [] = Perm.refl []
sort_rows-perm (r ∷ rows) =
    Perm.trans (insert_row-perm r (sort_rows rows)) (Perm.cons r (sort_rows-perm rows))

-- The rows of a tenant stand latest month first.
pub query_tenant_aggregates-IsDescending :
    (config : Config) (query : Query) (now tenant : String)
    → IsDescending (months (query_tenant_aggregates config query now tenant))
unfolding query_tenant_aggregates
query_tenant_aggregates-IsDescending config query now tenant = elim (Bool-cases config.demo_mode) [
  | inl demo ↦ rw demo tt
  | inr live ↦ elim (Bool-cases (truthy config.usage_aggregate_table)) [
    | inl set ↦ rw (live, set) (go (query (partition_key tenant)))
    | inr unset ↦ rw (live, unset) tt
  ]
]
  where
    go : (o : Option (List AggregateItem)) → IsDescending (months (rows_of o))
    go none = tt
    go (some items) = sort_rows-IsDescending (map row_of items)

-- Outside demo mode, with the table configured, the rows of a tenant are those of the items that
-- the query for the tenant's partition returns, each as often as there, and latest month first.
pub query_tenant_aggregates_sorts :
    (config : Config) (query : Query) (now tenant : String) (items : List AggregateItem)
    → config.demo_mode ≡ false
    → truthy config.usage_aggregate_table ≡ true
    → query (partition_key tenant) ≡ some items
    → let rows = query_tenant_aggregates config query now tenant in
      Perm rows (map row_of items) × IsDescending (months rows)
unfolding query_tenant_aggregates
query_tenant_aggregates_sorts config query now tenant items live set found =
    rw (live, set, found)
      (sort_rows-perm (map row_of items), sort_rows-IsDescending (map row_of items))
