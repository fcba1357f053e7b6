-- ===== src/Metering/Handler/Rollup.antt =====
-- handler.py: the aggregate against the ledger.
use secure_multi_tenant_saas.Prelude.{
  String, ◌≡◌, refl, ap, ◌∙◌, Bool, false, Option, none, some, List, [], ◌∷◌, ◌&&◌, ◌==◌, eq_iff,
  arith, if◌then◌else◌,
}
use secure_multi_tenant_saas.Prelude.Dict.{Dict}
use secure_multi_tenant_saas.Prelude.Exec.{Error, Result, ok, err, continue}
use secure_multi_tenant_saas.Metering.Json.{Json, Body, object, other_value, malformed}
use secure_multi_tenant_saas.Metering.Event.{with_offset}
use secure_multi_tenant_saas.Metering.Store.{
  UsageItem, Total, PutReply, done, duplicate, failed, Ops, Dynamo, add_usage,
}
use secure_multi_tenant_saas.Metering.Handler.{
  Message, month_key, accept_event, raise_if_failed, add_to_aggregate, after_put, store_event,
  process_event, process_body, handler,
}
use secure_multi_tenant_saas.Metering.Handler.Keys.{IsReadAs, accept_event-IsReadAs, month_key-eq}

module _ (month_of : String → Option String) where
  abbrev pub is_month : Option String → String → Bool
  is_month none month = false
  is_month (some m) month = m == month

  -- Is the item one of the tenant's, of the month that its timestamp tells?
  abbrev pub belongs : String → String → UsageItem → Bool
  belongs pk month item =
      pk == item.pk && is_month (month_of (with_offset item.event_timestamp)) month

  -- What the aggregate should hold for a tenant and a month: the number of their ledger items and
  -- the sum of their units, or nothing if there are none.
  unfoldable pub rollup : String → String → List UsageItem → Option Total
  rollup pk month [] = none
  rollup pk month (item ∷ items) =
      let rest = rollup pk month items in
      if belongs pk month item then some (add_usage item.usage_units rest) else rest

module _ {S : Type 0} {ops : Ops S} (D : Dynamo ops) (month_of : String → Option String) where
  -- The aggregate holds exactly what the ledger adds up to, for each tenant and month.
  abbrev pub IsConsistent : S → Type 0
  IsConsistent s =
      (pk month : String) → D.total s pk (month_key month) ≡ rollup month_of pk month (D.ledger s)

-- No update of the aggregate fails, and a PutItem that fails has not been applied.
pub record IsReliable {S : Type 0} {ops : Ops S} (D : Dynamo ops) : Type 0 where
  pub updates :
      (pk sk : String) (units : _) (now tenant_id month : String) (s : S)
      → (ops.update_item pk sk units now tenant_id month s).0 ≡ none
  pub puts :
      (item : UsageItem) (e : Error) (s s' : S)
      → ops.put_item item s ≡ (failed e, s')
      → D.ledger s' ≡ D.ledger s

module _ {S : Type 0} {ops : Ops S} (D : Dynamo ops) (reliable : IsReliable D)
    (month_of : String → Option String) (str_of : Json → String) (now : String) where
  after_update :
      (item : UsageItem) (month : String) (s : S) (o : Option Error × S)
      → ops.update_item item.pk (month_key month) item.usage_units now item.tenant_id month s ≡ o
      → IsReadAs month_of item month
      → (l : List UsageItem) → D.ledger s ≡ item ∷ l
      → ((pk m : String) → D.total s pk (month_key m) ≡ rollup month_of pk m l)
      → IsConsistent D month_of (raise_if_failed month_of str_of now ops o.0 o.1).1
  unfolding rollup
  after_update item month s (none, s') e h l el c = λ pk m.
      let u =
        D.update_done item.pk (month_key month) item.usage_units now item.tenant_id month s s' e in
      rw (u.1 pk (month_key m), u.0 ∙ el, h.dated, month_key-eq m month, c pk m)
        (ground (arith, c item.pk month, eq_iff pk item.pk, eq_iff m month, eq_iff month m))
  after_update item month s (some x, s') e h l el c = cc (
    reliable.updates item.pk (month_key month) item.usage_units now item.tenant_id month s,
    ap (λ o. o.0) e,
  )

  after_put-IsConsistent :
      (item : UsageItem) (month : String) (s : S) (o : PutReply × S)
      → ops.put_item item s ≡ o
      → IsReadAs month_of item month
      → IsConsistent D month_of s
      → IsConsistent D month_of (after_put month_of str_of now ops item month o.0 o.1).1
  unfolding after_put add_to_aggregate
  after_put-IsConsistent item month s (done, s') e h c =
      let (_, l, t) = D.put_done item s s' e in
      after_update item month s' _ refl h (D.ledger s) l λ pk m. rw t (c pk m)
  after_put-IsConsistent item month s (duplicate, s') e h c =
      let (_, l, t) = D.put_duplicate item s s' e in λ pk m. rw (l, t) (c pk m)
  after_put-IsConsistent item month s (failed x, s') e h c =
      let (t, _) = D.put_failed item x s s' e in
      let l = reliable.puts item x s s' e in λ pk m. rw (l, t) (c pk m)

  process_event-IsConsistent :
      (event : Dict Json) (s : S)
      → IsConsistent D month_of s
      → IsConsistent D month_of (process_event month_of str_of now ops event s).1
  unfolding process_event store_event
  process_event-IsConsistent event s c = go (accept_event month_of str_of now event) refl
    where
      go :
          (r : Result (UsageItem × String))
          → accept_event month_of str_of now event ≡ r
          → IsConsistent D month_of (continue r (store_event month_of str_of now ops) s).1
      go (ok (item, month)) e =
          after_put-IsConsistent item month s _ refl
            (accept_event-IsReadAs month_of str_of now event item month e) c
      go (err x) e = c

  process_body-IsConsistent :
      (body : Body) (s : S)
      → IsConsistent D month_of s
      → IsConsistent D month_of (process_body month_of str_of now ops body s).1
  unfolding process_body
  process_body-IsConsistent (object event) s c = process_event-IsConsistent event s c
  process_body-IsConsistent other_value s c = c
  process_body-IsConsistent malformed s c = c

  -- Where no update of the aggregate fails, and a failed PutItem has not been applied, the handler
  -- keeps the aggregate equal to what the ledger adds up to, for every tenant and month and
  -- whatever the batch holds: malformed, invalid, repeated and new events.
  pub handler-IsConsistent :
      (messages : List Message) (s : S)
      → IsConsistent D month_of s
      → IsConsistent D month_of (handler month_of str_of now ops messages s).1
  unfolding handler
  handler-IsConsistent [] s c = c
  handler-IsConsistent (m ∷ messages) s c =
      handler-IsConsistent messages _ (process_body-IsConsistent m.body s c)
