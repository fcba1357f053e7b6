-- ===== src/Metering/Handler/Workers/Counted.antt =====
-- handler.py: whatever the order in which several workers make their calls, each event counts once.
use secure_multi_tenant_saas.Prelude.{
  String, ◌≡◌, refl, ap, ◌∙◌, Option, none, some, List, [], ◌∷◌, eq_iff, arith, Bool-cases, inl,
  inr, if◌then◌else◌,
}
use secure_multi_tenant_saas.Prelude.Exec.{Error, Result, ok, err}
use secure_multi_tenant_saas.Metering.Json.{Json, Body, object, other_value, malformed}
use secure_multi_tenant_saas.Metering.Store.{
  UsageItem, Total, PutReply, done, duplicate, failed, Ops, Dynamo, add_usage,
}
use secure_multi_tenant_saas.Metering.Handler.{
  Message, month_key, accept_event, raise_if_failed, add_to_aggregate,
}
use secure_multi_tenant_saas.Metering.Handler.Keys.{IsReadAs, accept_event-IsReadAs, month_key-eq}
use secure_multi_tenant_saas.Metering.Handler.Rollup.{IsReliable, belongs, rollup}
use secure_multi_tenant_saas.Metering.Handler.Workers.Owed.{Commutes, owed_by}
use secure_multi_tenant_saas.Metering.Handler.Workers.{
  Worker, ready, adding, after_reply, put_event, begin, advance,
}

-- What a worker has stored is what an accepted event is stored as.
abbrev pub IsRead : (String → Option String) → Worker → Type 0
IsRead month_of (ready failures messages) = Unit
IsRead month_of (adding failures item month id messages) = IsReadAs month_of item month

abbrev pub AreRead : (String → Option String) → List Worker → Type 0
AreRead month_of [] = Unit
AreRead month_of (w ∷ workers) = IsRead month_of w × AreRead month_of workers

module _ (month_of : String → Option String) (str_of : Json → String) (now : String) {S : Type 0}
    (ops : Ops S) where
  reply-IsRead :
      (failures : List String) (item : UsageItem) (m id : String) (messages : List Message)
      (r : PutReply)
      → IsReadAs month_of item m
      → IsRead month_of (after_reply month_of str_of now ops failures item m id messages r)
  unfolding after_reply
  reply-IsRead failures item m id messages done h = h
  reply-IsRead failures item m id messages duplicate h = tt
  reply-IsRead failures item m id messages (failed e) h = tt

  begin-IsRead :
      (failures : List String) (id : String) (messages : List Message) (body : Body) (s : S)
      → IsRead month_of (begin month_of str_of now ops failures id messages body s).0
  unfolding begin put_event
  begin-IsRead failures id messages (object event) s =
      go (accept_event month_of str_of now event) refl
    where
      go :
          (r : Result (UsageItem × String))
          → accept_event month_of str_of now event ≡ r
          → IsRead month_of (put_event month_of str_of now ops failures id messages r s).0
      go (ok (item, m)) e =
          reply-IsRead failures item m id messages (ops.put_item item s).0
            (accept_event-IsReadAs month_of str_of now event item m e)
      go (err x) e = tt
  begin-IsRead failures id messages other_value s = tt
  begin-IsRead failures id messages malformed s = tt

  pub advance-IsRead :
      (w : Worker) (s : S)
      → IsRead month_of w
      → IsRead month_of (advance month_of str_of now ops w s).0
  unfolding advance
  advance-IsRead (ready failures []) s h = tt
  advance-IsRead (ready failures (m ∷ messages)) s h =
      begin-IsRead failures m.message_id messages m.body s
  advance-IsRead (adding failures item m id messages) s h = tt

module _ {S : Type 0} {ops : Ops S} (D : Dynamo ops) (reliable : IsReliable D)
    (month_of : String → Option String) (str_of : Json → String) (now : String) where
  -- With what a worker owes, and others owe, the aggregate is what the ledger adds up to.
  abbrev pub Balanced : (pk month : String) → (Option Total → Option Total) → Worker → S → Type 0
  Balanced pk month g w s =
      g (owed_by month_of pk month w (D.total s pk (month_key month)))
      ≡ rollup month_of pk month (D.ledger s)

  total-update :
      (item : UsageItem) (m : String) (s s' : S)
      → ops.update_item item.pk (month_key m) item.usage_units now item.tenant_id m s ≡ (none, s')
      → IsReadAs month_of item m
      → (pk month : String)
      → D.total s' pk (month_key month) ≡ (
          if belongs month_of pk month item
          then some (add_usage item.usage_units (D.total s pk (month_key month)))
          else D.total s pk (month_key month))
  total-update item m s s' e h pk month =
      let u = D.update_done item.pk (month_key m) item.usage_units now item.tenant_id m s s' e in
      rw (u.1 pk (month_key month), h.dated, month_key-eq month m)
        (ground (arith, eq_iff pk item.pk, eq_iff m month, eq_iff month m))

  module _ (pk month : String) (g : Option Total → Option Total) (commutes : Commutes g) where
    reply-Balanced :
        (failures : List String) (item : UsageItem) (m id : String) (messages : List Message)
        (s : S) (o : PutReply × S)
        → ops.put_item item s ≡ o
        → Balanced pk month g (ready failures messages) s
        → Balanced pk month g
            (after_reply month_of str_of now ops failures item m id messages o.0)
            o.1
    unfolding after_reply rollup
    reply-Balanced failures item m id messages s (done, s') e b =
        let (_, l, t) = D.put_done item s s' e in
        elim (Bool-cases (belongs month_of pk month item)) [
          | inl own ↦
              rw (l, t, own) (commutes _ _ ∙ ap (λ r. some (add_usage item.usage_units r)) b)
          | inr other ↦ rw (l, t, other) b
        ]
    reply-Balanced failures item m id messages s (duplicate, s') e b =
        let (_, l, t) = D.put_duplicate item s s' e in rw (l, t) b
    reply-Balanced failures item m id messages s (failed x, s') e b =
        let (t, _) = D.put_failed item x s s' e in
        let l = reliable.puts item x s s' e in rw (l, t) b

    put_event-Balanced :
        (failures : List String) (id : String) (messages : List Message)
        (r : Result (UsageItem × String)) (s : S)
        → Balanced pk month g (ready failures messages) s
        → let o = put_event month_of str_of now ops failures id messages r s in
          Balanced pk month g o.0 o.1
    unfolding put_event
    put_event-Balanced failures id messages (ok (item, m)) s b =
        reply-Balanced failures item m id messages s _ refl b
    put_event-Balanced failures id messages (err e) s b = b

    begin-Balanced :
        (failures : List String) (id : String) (messages : List Message) (body : Body) (s : S)
        → Balanced pk month g (ready failures messages) s
        → let o = begin month_of str_of now ops failures id messages body s in
          Balanced pk month g o.0 o.1
    unfolding begin
    begin-Balanced failures id messages (object event) s b =
        put_event-Balanced failures id messages _ s b
    begin-Balanced failures id messages other_value s b = b
    begin-Balanced failures id messages malformed s b = b

    update-Balanced :
        (item : UsageItem) (m : String) (s : S) (o : Option Error × S) (failures : List String)
        (id : String) (messages : List Message)
        → ops.update_item item.pk (month_key m) item.usage_units now item.tenant_id m s ≡ o
        → IsReadAs month_of item m
        → Balanced pk month g (adding failures item m id messages) s
        → g (D.total (raise_if_failed month_of str_of now ops o.0 o.1).1 pk (month_key month))
          ≡ rollup month_of pk month (D.ledger (raise_if_failed month_of str_of now ops o.0 o.1).1)
    update-Balanced item m s (none, s') failures id messages e h b =
        let u = D.update_done item.pk (month_key m) item.usage_units now item.tenant_id m s s' e in
        rw (total-update item m s s' e h pk month, u.0) b
    update-Balanced item m s (some x, s') failures id messages e h b = cc (
      reliable.updates item.pk (month_key m) item.usage_units now item.tenant_id m s,
      ap (λ o. o.0) e,
    )

    pub advance-Balanced :
        (w : Worker) (s : S)
        → IsRead month_of w
        → Balanced pk month g w s
        → let o = advance month_of str_of now ops w s in Balanced pk month g o.0 o.1
    unfolding advance add_to_aggregate
    advance-Balanced (ready failures []) s h b = b
    advance-Balanced (ready failures (m ∷ messages)) s h b =
        begin-Balanced failures m.message_id messages m.body s b
    advance-Balanced (adding failures item m id messages) s h b =
        update-Balanced item m s _ failures id messages refl h b
