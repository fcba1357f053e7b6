-- ===== src/Tests/Metering.antt =====
-- Tests of handler.py, on two tables in memory.
use secure_multi_tenant_saas.Prelude.{
  String, ◌≡◌, refl, ap, Bool, true, false, Option, none, some, List, [], ◌∷◌, ◌++◌, ◌&&◌, ◌==◌,
  arith, any_of, if◌then◌else◌,
}
use secure_multi_tenant_saas.Prelude.Dict.{Dict, get}
use secure_multi_tenant_saas.Prelude.Text.{strip}
use secure_multi_tenant_saas.Prelude.Int.{ℤ, pos}
use secure_multi_tenant_saas.Prelude.Exec.{Error, ok, err, client_error}
use secure_multi_tenant_saas.Metering.Json.{Json, int, str, object, malformed}
use secure_multi_tenant_saas.Metering.Event.{validate}
use secure_multi_tenant_saas.Metering.Store.{
  UsageItem, Total, PutReply, done, duplicate, failed, Ops, Dynamo, has_key, add_usage,
}
use secure_multi_tenant_saas.Metering.Handler.{
  Message, accept_event, read_event, process_event, handler,
}
use secure_multi_tenant_saas.Metering.Handler.Rollup.{
  IsConsistent, IsReliable, rollup, handler-IsConsistent,
}
use secure_multi_tenant_saas.Metering.Handler.Once.{is_recorded, process_event-again}
use secure_multi_tenant_saas.Metering.Handler.Recovery.{handler-invalid, failed_update_loses_usage}

pub record Memory : Type 0 where
  pub items : List UsageItem
  pub totals : String → String → Option Total

abbrev pub empty : Memory
empty = record { items = []; totals = λ p k. none }

abbrev pub put_memory : UsageItem → Memory → PutReply × Memory
put_memory item s =
    if any_of (has_key item.pk item.sk) s.items
    then (duplicate, s)
    else (done, record s { items = item ∷ s.items })

abbrev pub add_memory : String → String → ℤ → Memory → Memory
add_memory pk sk units s = record s {
  totals =
      λ p k. if p == pk && k == sk then some (add_usage units (s.totals pk sk)) else s.totals p k;
}

-- The tables; if they are broken, no update of the aggregate succeeds.
abbrev pub update_memory : Bool → String → String → ℤ → Memory → Option Error × Memory
update_memory true pk sk units s = (some client_error, s)
update_memory false pk sk units s = (none, add_memory pk sk units s)

abbrev pub tables : Bool → Ops Memory
tables broken = record {
  put_item = put_memory;
  update_item = λ pk sk units now tenant_id month s. update_memory broken pk sk units s;
}

module _ (item : UsageItem) (s s' : Memory) where
  pub put_memory_done :
      put_memory item s ≡ (done, s')
      → (any_of (has_key item.pk item.sk) s.items ≡ false)
        × (s'.items ≡ item ∷ s.items)
        × (s'.totals ≡ s.totals)
  put_memory_done e = ground arith

  pub put_memory_duplicate :
      put_memory item s ≡ (duplicate, s')
      → (any_of (has_key item.pk item.sk) s.items ≡ true)
        × (s'.items ≡ s.items)
        × (s'.totals ≡ s.totals)
  put_memory_duplicate e = ground arith

  pub put_memory_never_fails : {e : Error} → put_memory item s ≡ (failed e, s') → ⊥
  put_memory_never_fails h = ground arith

pub update_memory_done :
    (broken : Bool) (pk sk : String) (units : ℤ) (s s' : Memory)
    → update_memory broken pk sk units s ≡ (none, s')
    → s' ≡ add_memory pk sk units s
update_memory_done true pk sk units s s' e = cc
update_memory_done false pk sk units s s' e = ground arith

pub update_memory_failed :
    (broken : Bool) (pk sk : String) (units : ℤ) (x : Error) (s s' : Memory)
    → update_memory broken pk sk units s ≡ (some x, s')
    → s'.items ≡ s.items
update_memory_failed true pk sk units x s s' e = ground arith
update_memory_failed false pk sk units x s s' e = cc

abbrev pub tables-Dynamo : (broken : Bool) → Dynamo (tables broken)
tables-Dynamo broken = record {
  ledger = λ s. s.items;
  total = λ s. s.totals;
  put_done = put_memory_done;
  put_duplicate = put_memory_duplicate;
  put_failed = λ item e s s' h. absurd (put_memory_never_fails item s s' h);
  update_done = λ pk sk units now tenant_id month s s' h.
      let e = update_memory_done broken pk sk units s s' h in
      (ap (λ m. m.items) e, λ p k. ap (λ m. m.totals p k) e);
  update_failed =
      λ pk sk units now tenant_id month e s s' h. update_memory_failed broken pk sk units e s s' h;
}

pub working : IsReliable (tables-Dynamo false)
working = record {
  updates = λ pk sk units now tenant_id month s. refl;
  puts = λ item e s s' h. absurd (put_memory_never_fails item s s' h);
}

abbrev pub january : String → Option String
january s = some "2026-01"

abbrev pub shown : Json → String
shown v = "?"

abbrev pub now : String
now = "2026-01-06T00:00:00+00:00"

abbrev pub event : Dict Json
event =
    ("event_id", str "e1")
    ∷ ("tenant_id", str "TenantA")
    ∷ ("user_id", str "u1")
    ∷ ("api_path", str "/api/v1/users")
    ∷ ("http_method", str "GET")
    ∷ ("status_code", int (pos 200))
    ∷ ("usage_units", int (pos 3))
    ∷ ("timestamp", str "2026-01-05T10:00:00Z")
    ∷ []

abbrev item : UsageItem
item = record {
  pk = "TENANT#TenantA";
  sk = "USAGE#2026-01#e1";
  event_id = str "e1";
  tenant_id = "TenantA";
  user_id = str "u1";
  api_path = str "/api/v1/users";
  http_method = str "GET";
  status_code = int (pos 200);
  usage_units = pos 3;
  event_timestamp = "2026-01-05T10:00:00Z";
  ingested_at = now;
}

-- A new event, the same once more, and a body that is no JSON.
abbrev pub batch : List Message
batch =
    record { message_id = "m1"; body = object event }
    ∷ record { message_id = "m2"; body = object event }
    ∷ record { message_id = "m3"; body = malformed }
    ∷ []

accepted : accept_event january shown now event ≡ ok (item, "2026-01")
unfolding accept_event validate read_event get strip
accepted = refl

pub consistent : (broken : Bool) → IsConsistent (tables-Dynamo broken) january empty
unfolding rollup
consistent broken = λ pk month. refl

handler-IsConsistent_example :
    IsConsistent
      (tables-Dynamo false)
      january
      (handler january shown now (tables false) batch empty).1
handler-IsConsistent_example =
    handler-IsConsistent (tables-Dynamo false) working january shown now batch empty
      (consistent false)

abbrev counted : Memory
counted = record empty { items = item ∷ [] }

process_event-again_example :
    ((process_event january shown now (tables false) event counted).1.items ≡ counted.items)
    × ((process_event january shown now (tables false) event counted).1.totals ≡ counted.totals)
process_event-again_example =
    process_event-again (tables-Dynamo false) january shown now event item "2026-01" counted
      accepted refl

abbrev garbage : Message
garbage = record { message_id = "m3"; body = malformed }

handler-invalid_example :
    let run = handler january shown now (tables false) in
    ((run (batch ++ garbage ∷ batch) empty).1 ≡ (run (batch ++ batch) empty).1)
    × ((run (batch ++ garbage ∷ batch) empty).0
        ≡ (run batch empty).0 ++ "m3" ∷ (run batch (run batch empty).1).0)
    × ((run (batch ++ batch) empty).0 ≡ (run batch empty).0 ++ (run batch (run batch empty).1).0)
handler-invalid_example =
    handler-invalid (tables false) january shown now batch batch garbage empty tt

failed_update_loses_usage_example :
    let again = (process_event january shown now (tables true) event counted).1 in
    (process_event january shown now (tables true) event empty ≡ (err client_error, counted))
    × (is_recorded item counted.items ≡ true)
    × (again.items ≡ counted.items)
    × (again.totals ≡ empty.totals)
    × ¬ IsConsistent (tables-Dynamo true) january again
failed_update_loses_usage_example =
    failed_update_loses_usage (tables-Dynamo true) january shown now event item "2026-01"
      client_error empty counted counted accepted refl refl refl (consistent true)
