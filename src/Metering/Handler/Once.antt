-- ===== src/Metering/Handler/Once.antt =====
-- handler.py: messages that come again.
use secure_multi_tenant_saas.Prelude.{
  String, ◌≡◌, refl, ◌∙◌, ◌⊎◌, inl, inr, Bool, true, false, Option, none, some, List, [], ◌∷◌,
  any_of,
}
use secure_multi_tenant_saas.Prelude.Dict.{Dict}
use secure_multi_tenant_saas.Prelude.Exec.{Error, Result, ok, err, continue}
use secure_multi_tenant_saas.Metering.Json.{Json, Body, object, other_value, malformed}
use secure_multi_tenant_saas.Metering.Store.{
  UsageItem, PutReply, done, duplicate, failed, Ops, Dynamo, has_key,
}
use secure_multi_tenant_saas.Metering.Handler.{
  Message, month_key, accept_event, raise_if_failed, add_to_aggregate, after_put, store_event,
  process_event, process_body, handler,
}

-- An item with the same key stands in the list.
abbrev pub is_recorded : UsageItem → List UsageItem → Bool
is_recorded item = any_of (has_key item.pk item.sk)

-- No key stands twice.
abbrev pub HasUniqueItems : List UsageItem → Type 0
HasUniqueItems [] = Unit
HasUniqueItems (item ∷ items) = (is_recorded item items ≡ false) × HasUniqueItems items

module _ {S : Type 0} {ops : Ops S} (D : Dynamo ops) (month_of : String → Option String)
    (str_of : Json → String) (now : String) where
  -- What one event may do to the ledger: nothing, or add an item whose key was not there.
  abbrev pub Appends : S → S → Type 0
  Appends s s' =
      (D.ledger s' ≡ D.ledger s)
      ⊎ ((item : UsageItem) × (is_recorded item (D.ledger s) ≡ false)
          × (D.ledger s' ≡ item ∷ D.ledger s))

  pub ledger-add_to_aggregate :
      (item : UsageItem) (month : String) (s : S)
      → D.ledger (add_to_aggregate month_of str_of now ops item month s).1 ≡ D.ledger s
  unfolding add_to_aggregate
  ledger-add_to_aggregate item month s = go _ refl
    where
      go :
          (o : Option Error × S)
          → ops.update_item item.pk (month_key month) item.usage_units now item.tenant_id month s
            ≡ o
          → D.ledger (raise_if_failed month_of str_of now ops o.0 o.1).1 ≡ D.ledger s
      go (none, s') e = (D.update_done _ _ _ _ _ _ s s' e).0
      go (some x, s') e = D.update_failed _ _ _ _ _ _ x s s' e

  after_put-Appends :
      (item : UsageItem) (month : String) (s : S) (o : PutReply × S)
      → ops.put_item item s ≡ o
      → Appends s (after_put month_of str_of now ops item month o.0 o.1).1
  unfolding after_put
  after_put-Appends item month s (done, s') e =
      let (fresh, l, _) = D.put_done item s s' e in
      inr (item, fresh, ledger-add_to_aggregate item month s' ∙ l)
  after_put-Appends item month s (duplicate, s') e = inl (D.put_duplicate item s s' e).1
  after_put-Appends item month s (failed x, s') e = applied (D.put_failed item x s s' e).1
    where
      applied :
          ((D.ledger s' ≡ D.ledger s)
            ⊎ ((is_recorded item (D.ledger s) ≡ false) × (D.ledger s' ≡ item ∷ D.ledger s)))
          → Appends s s'
      applied (inl same) = inl same
      applied (inr (fresh, l)) = inr (item, fresh, l)

  process_body-Appends :
      (body : Body) (s : S) → Appends s (process_body month_of str_of now ops body s).1
  unfolding process_body process_event store_event
  process_body-Appends (object event) s = go (accept_event month_of str_of now event)
    where
      go :
          (r : Result (UsageItem × String))
          → Appends s (continue r (store_event month_of str_of now ops) s).1
      go (ok (item, month)) = after_put-Appends item month s _ refl
      go (err x) = inl refl
  process_body-Appends other_value s = inl refl
  process_body-Appends malformed s = inl refl

  pub Appends-HasUniqueItems :
      (s s' : S) → Appends s s' → HasUniqueItems (D.ledger s) → HasUniqueItems (D.ledger s')
  Appends-HasUniqueItems s s' (inl same) h = rw same h
  Appends-HasUniqueItems s s' (inr (item, fresh, l)) h = rw l (fresh, h)

  -- However the calls of DynamoDB fail, and whatever is delivered how often, no key stands twice in
  -- the ledger.
  pub handler-HasUniqueItems :
      (messages : List Message) (s : S)
      → HasUniqueItems (D.ledger s)
      → HasUniqueItems (D.ledger (handler month_of str_of now ops messages s).1)
  unfolding handler
  handler-HasUniqueItems [] s h = h
  handler-HasUniqueItems (m ∷ messages) s h =
      handler-HasUniqueItems messages _
        (Appends-HasUniqueItems s _ (process_body-Appends m.body s) h)

  after_put-again :
      (item : UsageItem) (month : String) (s : S) (o : PutReply × S)
      → ops.put_item item s ≡ o
      → is_recorded item (D.ledger s) ≡ true
      → let s' = (after_put month_of str_of now ops item month o.0 o.1).1 in
        (D.ledger s' ≡ D.ledger s) × (D.total s' ≡ D.total s)
  unfolding after_put
  after_put-again item month s (done, s') e r = cc ((D.put_done item s s' e).0, r)
  after_put-again item month s (duplicate, s') e r =
      let (_, l, t) = D.put_duplicate item s s' e in (l, t)
  after_put-again item month s (failed x, s') e r =
      let (t, l) = D.put_failed item x s s' e in
      (elim l [ inl same ↦ same | inr (fresh, _) ↦ cc (fresh, r) ], t)

  -- An event whose key the ledger has is counted no more: whatever DynamoDB answers, the ledger and
  -- the aggregate stay as they are.
  pub process_event-again :
      (event : Dict Json) (item : UsageItem) (month : String) (s : S)
      → accept_event month_of str_of now event ≡ ok (item, month)
      → is_recorded item (D.ledger s) ≡ true
      → let s' = (process_event month_of str_of now ops event s).1 in
        (D.ledger s' ≡ D.ledger s) × (D.total s' ≡ D.total s)
  unfolding process_event store_event
  process_event-again event item month s a r = rw a (after_put-again item month s _ refl r)
