-- ===== src/Metering/Handler/Redelivery.antt =====
-- handler.py: a message that is delivered several times.
use secure_multi_tenant_saas.Prelude.{
  ℕ, zero, suc, String, ◌≡◌, ◌≢◌, refl, ap, ◌∙◌, true, false, Option, none, some, List, [], ◌∷◌,
  ◌&&◌, ◌==◌, eq_refl, if◌then◌else◌,
}
use secure_multi_tenant_saas.Prelude.Dict.{Dict}
use secure_multi_tenant_saas.Prelude.Exec.{Error, Result, ok}
use secure_multi_tenant_saas.Metering.Json.{Json, object}
use secure_multi_tenant_saas.Metering.Store.{
  UsageItem, PutReply, done, duplicate, failed, Ops, Dynamo, add_usage,
}
use secure_multi_tenant_saas.Metering.Handler.{
  Message, month_key, accept_event, raise_if_failed, add_to_aggregate, after_put, store_event,
  process_event, process_body, report_message, handler,
}
use secure_multi_tenant_saas.Metering.Handler.Rollup.{IsReliable}
use secure_multi_tenant_saas.Metering.Handler.Once.{is_recorded}

-- No PutItem fails, except by its condition.
pub record Accepts {S : Type 0} (ops : Ops S) : Type 0 where
  pub puts : (item : UsageItem) (e : Error) (s : S) → (ops.put_item item s).0 ≢ failed e

-- The same message, several times.
abbrev pub deliveries : ℕ → Message → List Message
deliveries zero m = []
deliveries (suc n) m = m ∷ deliveries n m

module _ {S : Type 0} {ops : Ops S} (D : Dynamo ops) (reliable : IsReliable D)
    (accepts : Accepts ops) (month_of : String → Option String) (str_of : Json → String)
    (now : String) where
  after_put_recorded :
      (item : UsageItem) (month : String) (s : S) (o : PutReply × S)
      → ops.put_item item s ≡ o
      → is_recorded item (D.ledger s) ≡ true
      → let (r, s') = after_put month_of str_of now ops item month o.0 o.1 in
        (r ≡ ok tt) × (D.ledger s' ≡ D.ledger s) × (D.total s' ≡ D.total s)
  unfolding after_put
  after_put_recorded item month s (done, s') e h = cc ((D.put_done item s s' e).0, h)
  after_put_recorded item month s (duplicate, s') e h =
      let (_, l, t) = D.put_duplicate item s s' e in (refl, l, t)
  after_put_recorded item month s (failed x, s') e h =
      absurd (accepts.puts item x s (ap (λ o. o.0) e))

  after_update_new :
      (item : UsageItem) (month : String) (s : S) (o : Option Error × S)
      → ops.update_item item.pk (month_key month) item.usage_units now item.tenant_id month s ≡ o
      → let (r, s') = raise_if_failed month_of str_of now ops o.0 o.1 in
        (r ≡ ok tt)
        × (D.ledger s' ≡ D.ledger s)
        × ((pk k : String)
            → D.total s' pk k ≡ (
                if pk == item.pk && k == month_key month
                then some (add_usage item.usage_units (D.total s item.pk (month_key month)))
                else D.total s pk k))
  after_update_new item month s (none, s') e =
      let (l, t) =
        D.update_done item.pk (month_key month) item.usage_units now item.tenant_id month s s' e in
      (refl, l, t)
  after_update_new item month s (some x, s') e = cc (
    reliable.updates item.pk (month_key month) item.usage_units now item.tenant_id month s,
    ap (λ o. o.0) e,
  )

  -- A new item has been put and added to the aggregate.
  abbrev Counts : UsageItem → String → S → Result (Unit {0}) × S → Type 0
  Counts item month s (r, s') =
      (r ≡ ok tt)
      × (D.ledger s' ≡ item ∷ D.ledger s)
      × ((pk k : String)
          → D.total s' pk k ≡ (
              if pk == item.pk && k == month_key month
              then some (add_usage item.usage_units (D.total s item.pk (month_key month)))
              else D.total s pk k))

  after_put_new :
      (item : UsageItem) (month : String) (s : S) (o : PutReply × S)
      → ops.put_item item s ≡ o
      → is_recorded item (D.ledger s) ≡ false
      → Counts item month s (after_put month_of str_of now ops item month o.0 o.1)
  unfolding after_put add_to_aggregate
  after_put_new item month s (done, s') e h =
      let (_, l, t) = D.put_done item s s' e in
      let (r, l', t') = after_update_new item month s' _ refl in (r, l' ∙ l, rw t at t')
  after_put_new item month s (duplicate, s') e h = cc ((D.put_duplicate item s s' e).0, h)
  after_put_new item month s (failed x, s') e h = absurd (accepts.puts item x s (ap (λ o. o.0) e))

  module _ (event : Dict Json) (item : UsageItem) (month id : String)
      (accepted : accept_event month_of str_of now event ≡ ok (item, month)) where
    abbrev pub deliver : ℕ → S → List String × S
    deliver n =
        handler month_of str_of now ops
          (deliveries n (record { message_id = id; body = object event }))

    deliver-zero : (s : S) → deliver zero s ≡ ([], s)
    unfolding handler
    deliver-zero s = refl

    deliver-suc :
        (n : ℕ) (s : S)
        → deliver (suc n) s ≡ (
            let (r, s') = store_event month_of str_of now ops (item, month) s in
            let (failures, s'') = deliver n s' in
            (report_message month_of str_of now ops r id failures, s''))
    unfolding handler process_body process_event
    deliver-suc n s = rw accepted refl

    deliver_again :
        (n : ℕ) (s : S)
        → is_recorded item (D.ledger s) ≡ true
        → let (failures, s') = deliver n s in
          (failures ≡ []) × (D.ledger s' ≡ D.ledger s) × (D.total s' ≡ D.total s)
    unfolding store_event
    deliver_again zero s h = rw (deliver-zero s) (refl, refl, refl)
    deliver_again (suc n) s h =
        let (r, l, t) = after_put_recorded item month s _ refl h in
        let (f, l', t') = deliver_again n _ (ap (is_recorded item) l ∙ h) in
        rw (deliver-suc n s, r) (f, l' ∙ l, t' ∙ t)

    -- A message whose event is new is counted once, however often it is delivered: no delivery is
    -- reported as a failure, the ledger has one more item, and only the total of its tenant and
    -- month has changed, by this item. No call of DynamoDB fails but by the condition.
    pub deliver-counts_once :
        (n : ℕ) (s : S)
        → is_recorded item (D.ledger s) ≡ false
        → let (failures, s') = deliver (suc n) s in
          (failures ≡ [])
          × (D.ledger s' ≡ item ∷ D.ledger s)
          × ((pk k : String)
              → D.total s' pk k ≡ (
                  if pk == item.pk && k == month_key month
                  then some (add_usage item.usage_units (D.total s item.pk (month_key month)))
                  else D.total s pk k))
    unfolding store_event
    deliver-counts_once n s h =
        let (r, l, t) = after_put_new item month s _ refl h in
        let (f, l', t') =
          deliver_again n _ (ap (is_recorded item) l ∙ rw (eq_refl, eq_refl) refl) in
        rw (deliver-suc n s, r) (f, l' ∙ l, rw t' t)
