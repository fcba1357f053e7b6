-- ===== src/Metering/Handler/Recovery.antt =====
-- handler.py: what one bad message and a failed update do.
use secure_multi_tenant_saas.Prelude.{
  String, ◌≡◌, ◌≢◌, refl, ap, sym, true, ◌∙◌, Option, none, some, List, [], ◌∷◌, ◌++◌, eq_refl,
  arith,
}
use secure_multi_tenant_saas.Prelude.Dict.{Dict}
use secure_multi_tenant_saas.Prelude.Int.{ℤ}
use secure_multi_tenant_saas.Prelude.Exec.{Error, Result, ok, err}
use secure_multi_tenant_saas.Metering.Json.{Json, Body, object, other_value, malformed}
use secure_multi_tenant_saas.Metering.Store.{UsageItem, Total, done, Ops, Dynamo, add_usage}
use secure_multi_tenant_saas.Metering.Handler.{
  Message, month_key, accept_event, add_to_aggregate, after_put, store_event, process_event,
  process_body, report_message, handler,
}
use secure_multi_tenant_saas.Metering.Handler.Keys.{IsReadAs, accept_event-IsReadAs}
use secure_multi_tenant_saas.Metering.Handler.Once.{is_recorded, process_event-again}
use secure_multi_tenant_saas.Metering.Handler.Rollup.{rollup, IsConsistent}

module _ {S : Type 0} (ops : Ops S) (month_of : String → Option String) (str_of : Json → String)
    (now : String) where
  -- A body that is no JSON, no object, or no valid event.
  abbrev pub IsInvalid : Body → Type 0
  IsInvalid (object event) = (e : Error) × (accept_event month_of str_of now event ≡ err e)
  IsInvalid other_value = Unit
  IsInvalid malformed = Unit

  abbrev run : List Message → S → List String × S
  run = handler month_of str_of now ops

  process_body-invalid :
      (body : Body) (s : S)
      → IsInvalid body
      → (e : Error) × (process_body month_of str_of now ops body s ≡ (err e, s))
  unfolding process_body process_event
  process_body-invalid (object event) s (e, h) = (e, rw h)
  process_body-invalid other_value s h = (_, refl)
  process_body-invalid malformed s h = (_, refl)

  report_message-append :
      (r : Result (Unit {0})) (id : String) (fs gs : List String)
      → report_message month_of str_of now ops r id (fs ++ gs)
        ≡ report_message month_of str_of now ops r id fs ++ gs
  report_message-append (ok _) id fs gs = refl
  report_message-append (err e) id fs gs = refl

  run-append :
      (xs ys : List Message) (s : S)
      → run (xs ++ ys) s ≡ ((run xs s).0 ++ (run ys (run xs s).1).0, (run ys (run xs s).1).1)
  unfolding handler
  run-append [] ys s = refl
  run-append (x ∷ xs) ys s =
      rw (run-append xs ys (process_body month_of str_of now ops x.body s).1, report_message-append)

  -- An invalid message is reported as a failure and changes nothing else: the rest of the batch is
  -- handled, and its failures are reported, as if that message were not there.
  pub handler-invalid :
      (xs ys : List Message) (m : Message) (s : S)
      → IsInvalid m.body
      → ((run (xs ++ m ∷ ys) s).1 ≡ (run (xs ++ ys) s).1)
        × ((run (xs ++ m ∷ ys) s).0 ≡ (run xs s).0 ++ m.message_id ∷ (run ys (run xs s).1).0)
        × ((run (xs ++ ys) s).0 ≡ (run xs s).0 ++ (run ys (run xs s).1).0)
  unfolding handler
  handler-invalid xs ys m s h =
      let (e, bad) = process_body-invalid m.body (run xs s).1 h in
      rw (run-append xs (m ∷ ys) s, run-append xs ys s, bad) (refl, refl, refl)

add_usage-ne : (units : ℤ) (t : Option Total) → some (add_usage units t) ≢ t
add_usage-ne units none = λ e. cc
add_usage-ne units (some t) = λ e. ground arith

module _ {S : Type 0} {ops : Ops S} (D : Dynamo ops) (month_of : String → Option String)
    (str_of : Json → String) (now : String) where
  rollup-recorded :
      (item : UsageItem) (month : String) (items : List UsageItem)
      → IsReadAs month_of item month
      → rollup month_of item.pk month (item ∷ items)
        ≡ some (add_usage item.usage_units (rollup month_of item.pk month items))
  unfolding rollup
  rollup-recorded item month items h = rw (h.dated, eq_refl, eq_refl)

  -- An event that is new to the ledger and whose update of the aggregate fails, and has not been
  -- applied, is never counted: it is reported as a failure and the queue delivers it again, but then
  -- it stands in the ledger, and, whatever DynamoDB answers, the ledger stays as it is and the totals
  -- are those from before the event. The aggregate, if it was consistent with the ledger, is so no
  -- more.
  pub failed_update_loses_usage :
      (event : Dict Json) (item : UsageItem) (month : String) (e : Error) (s s1 s2 : S)
      → accept_event month_of str_of now event ≡ ok (item, month)
      → ops.put_item item s ≡ (done, s1)
      → ops.update_item item.pk (month_key month) item.usage_units now item.tenant_id month s1
        ≡ (some e, s2)
      → D.total s2 ≡ D.total s1
      → IsConsistent D month_of s
      → let again = (process_event month_of str_of now ops event s2).1 in
        (process_event month_of str_of now ops event s ≡ (err e, s2))
        × (is_recorded item (D.ledger s2) ≡ true)
        × (D.ledger again ≡ D.ledger s2)
        × (D.total again ≡ D.total s)
        × ¬ IsConsistent D month_of again
  unfolding process_event store_event add_to_aggregate after_put
  failed_update_loses_usage event item month e s s1 s2 a p u t c =
      let (_, l1, t1) = D.put_done item s s1 p in
      let recorded = D.update_failed _ _ _ _ _ _ e s1 s2 u ∙ l1 in
      let (found, l, totals) = again recorded in
      let same_totals = totals ∙ t ∙ t1 in
      (
        rw (a, p, u),
        found,
        l,
        same_totals,
        λ after.
            let h = accept_event-IsReadAs month_of str_of now event item month a in
            add_usage-ne item.usage_units (rollup month_of item.pk month (D.ledger s)) (
              sym (rollup-recorded item month (D.ledger s) h)
              ∙ ap (rollup month_of item.pk month) (sym (l ∙ recorded))
              ∙ sym (after item.pk month)
              ∙ ap (λ f. f item.pk (month_key month)) same_totals
              ∙ c item.pk month),
      )
    where
      again :
          D.ledger s2 ≡ item ∷ D.ledger s
          → let w = (process_event month_of str_of now ops event s2).1 in
            (is_recorded item (D.ledger s2) ≡ true)
            × (D.ledger w ≡ D.ledger s2)
            × (D.total w ≡ D.total s2)
      again l =
          let found : is_recorded item (D.ledger s2) ≡ true = rw (l, eq_refl, eq_refl) refl in
          let (l', totals) =
            process_event-again D month_of str_of now event item month s2 a found in
          (found, l', totals)
