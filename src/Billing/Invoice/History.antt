-- ===== src/Billing/Invoice/History.antt =====
-- billing_service.py: `get_invoices`.
use secure_multi_tenant_saas.Prelude.{
  ℕ, zero, suc, ◌≤◌, String, ◌≡◌, refl, true, List, [], ◌∷◌, All, map, take, length, some, arith,
  truthy, nonempty, if◌then◌else◌,
}
use secure_multi_tenant_saas.Config.{Config}
use secure_multi_tenant_saas.Billing.Money.{Money}
use secure_multi_tenant_saas.Billing.Usage.{Query, UsageRow, query_tenant_aggregates}
use secure_multi_tenant_saas.Billing.Usage.Order.{
  IsDescending, months, query_tenant_aggregates-IsDescending,
}
use secure_multi_tenant_saas.Billing.Invoice.{
  Invoice, calculate_invoice, invoice_for_row, get_invoices,
}

module _ (money : Money) (config : Config) (query : Query) (now tenant : String) where
  abbrev invoices_for : List UsageRow → List (Invoice money)
  invoices_for = map (invoice_for_row money config query now tenant)

  abbrev pub periods : List (Invoice money) → List String
  periods [] = []
  periods (i ∷ is) = i.billing_period ∷ periods is

  periods-invoices_for :
      (rows : List UsageRow)
      → All (λ m. truthy m ≡ true) (months rows)
      → periods (invoices_for rows) ≡ months rows
  unfolding calculate_invoice
  periods-invoices_for [] h = refl
  periods-invoices_for (r ∷ rows) h = rw (h.0, periods-invoices_for rows h.1)

  IsDescending-take :
      (n : ℕ) (rows : List UsageRow)
      → IsDescending (months rows)
      → IsDescending (months (take n rows))
  IsDescending-take zero rows d = tt
  IsDescending-take (suc n) [] d = tt
  IsDescending-take (suc zero) (r ∷ rows) d = tt
  IsDescending-take (suc (suc n)) (r ∷ []) d = tt
  IsDescending-take (suc (suc n)) (r ∷ s ∷ rows) d = (d.0, IsDescending-take (suc n) (s ∷ rows) d.1)

  IsDescending-periods :
      (rows : List UsageRow)
      → All (λ m. truthy m ≡ true) (months rows)
      → IsDescending (months rows)
      → IsDescending (periods (invoices_for rows))
  IsDescending-periods rows h d = rw (periods-invoices_for rows h) d

  All-take :
      (n : ℕ) (rows : List UsageRow)
      → All (λ m. truthy m ≡ true) (months rows)
      → All (λ m. truthy m ≡ true) (months (take n rows))
  All-take zero rows h = tt
  All-take (suc n) [] h = tt
  All-take (suc n) (r ∷ rows) h = (h.0, All-take n rows h.1)

  invoices_for-tenant :
      (rows : List UsageRow) → All (λ (i : Invoice money). i.tenant_id ≡ tenant) (invoices_for rows)
  unfolding calculate_invoice
  invoices_for-tenant [] = tt
  invoices_for-tenant (r ∷ rows) = (refl, invoices_for-tenant rows)

  length-invoices_for-take :
      (n : ℕ) (rows : List UsageRow) → length (invoices_for (take n rows)) ≤ n
  length-invoices_for-take zero rows = omega arith
  length-invoices_for-take (suc n) [] = omega arith
  length-invoices_for-take (suc n) (r ∷ rows) = omega (arith, length-invoices_for-take n rows)

  -- There is always an invoice and never more than the limit; all are the tenant's, and the latest
  -- month stands first, where every row of the aggregate has a month.
  pub get_invoices_history :
      (limit : ℕ)
      → 1 ≤ limit
      → All (λ m. truthy m ≡ true) (months (query_tenant_aggregates config query now tenant))
      → let invoices = get_invoices money config query now tenant limit in
        (1 ≤ length invoices)
        × (length invoices ≤ limit)
        × All (λ (i : Invoice money). i.tenant_id ≡ tenant) invoices
        × IsDescending (periods invoices)
  unfolding get_invoices
  get_invoices_history limit h dated =
      go (query_tenant_aggregates config query now tenant) dated
        (query_tenant_aggregates-IsDescending config query now tenant)
    where
      one :
          (n : ℕ)
          → 1 ≤ n
          → (r : UsageRow) (rows : List UsageRow) → 1 ≤ length (invoices_for (take n (r ∷ rows)))
      one zero le r rows = absurd (omega arith)
      one (suc n) le r rows = omega arith

      own : (calculate_invoice money config query now tenant (some now)).tenant_id ≡ tenant
      own = unfold calculate_invoice in refl

      go :
          (rows : List UsageRow)
          → All (λ m. truthy m ≡ true) (months rows)
          → IsDescending (months rows)
          → let invoices =
              if nonempty rows
              then invoices_for (take limit rows)
              else calculate_invoice money config query now tenant (some now) ∷ [] in
            (1 ≤ length invoices)
            × (length invoices ≤ limit)
            × All (λ (i : Invoice money). i.tenant_id ≡ tenant) invoices
            × IsDescending (periods invoices)
      go [] a d = (omega arith, omega arith, (own, tt), tt)
      go (r ∷ rows) a d = (
        one limit h r rows,
        length-invoices_for-take limit (r ∷ rows),
        invoices_for-tenant (take limit (r ∷ rows)),
        IsDescending-periods (take limit (r ∷ rows)) (All-take limit (r ∷ rows) a)
            (IsDescending-take limit (r ∷ rows) d),
      )
