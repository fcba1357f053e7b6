-- ===== src/UsageEvents/Delivered.antt =====
-- usage_service.py and metering_lambda/handler.py: a request whose event reaches the queue is
-- counted once, however often its message is delivered.
use secure_multi_tenant_saas.Prelude.{
  ℕ, suc, ◌≤◌, ◌<◌, String, ◌≡◌, refl, ◌∙◌, true, false, Option, none, some, [], ◌∷◌, ◌++◌, ◌&&◌,
  ◌==◌, eq_refl, arith, truthy, truthy?, or_empty,
}
use secure_multi_tenant_saas.Prelude.Text.{strip}
use secure_multi_tenant_saas.Prelude.Dict.{get}
use secure_multi_tenant_saas.Prelude.Int.{pos}
use secure_multi_tenant_saas.Prelude.Exec.{ok}
use secure_multi_tenant_saas.Config.{Config}
use secure_multi_tenant_saas.Web.{Identity, Request, Response, status_code}
use secure_multi_tenant_saas.Metering.Json.{Json, str, int, object}
use secure_multi_tenant_saas.Metering.Event.{validate, with_offset}
use secure_multi_tenant_saas.Metering.Store.{UsageItem, Ops, Dynamo, add_usage}
use secure_multi_tenant_saas.Metering.Handler.{
  Message, partition_key, usage_key, month_key, read_event, accept_event, handler,
}
use secure_multi_tenant_saas.Metering.Handler.Once.{is_recorded}
use secure_multi_tenant_saas.Metering.Handler.Rollup.{IsReliable}
use secure_multi_tenant_saas.Metering.Handler.Redelivery.{Accepts, deliveries, deliver-counts_once}
use secure_multi_tenant_saas.UsageEvents.{
  UsageEvent, Outbox, Telemetry, text_or_null, message_body, build_usage_event, meter_usage,
}
use secure_multi_tenant_saas.UsageEvents.Billable.{meter_usage_sends}

-- What the handler needs of an event that the application makes for a request.
pub record IsComplete (month_of : String → Option String) (event : UsageEvent) (month : String)
    : Type 0 where
  pub numbered : truthy event.event_id ≡ true
  pub owned : truthy (strip event.tenant_id) ≡ true
  pub made_by : truthy? event.user_id ≡ true
  pub located : truthy event.api_path ≡ true
  pub called : truthy event.http_method ≡ true
  pub counts : 1 ≤ event.usage_units
  pub stamped : truthy event.timestamp ≡ true
  pub dated : month_of (with_offset event.timestamp) ≡ some month

truthy-strip : (s : String) → truthy (strip s) ≡ true → truthy s ≡ true
unfolding strip
truthy-strip String.[] h = h
truthy-strip (String.◌∷◌ c s) h = refl

text_or_null-or_empty : (o : Option String) → truthy? o ≡ true → text_or_null o ≡ str (or_empty o)
text_or_null-or_empty none h = cc
text_or_null-or_empty (some s) h = refl

truthy-or_empty : (o : Option String) → truthy? o ≡ true → truthy (or_empty o) ≡ true
truthy-or_empty none h = cc
truthy-or_empty (some s) h = h

module _ (month_of : String → Option String) (str_of : Json → String) (now : String) where
  -- The item that the handler stores for an event.
  abbrev pub item_of : UsageEvent → String → UsageItem
  item_of event month = record {
    pk = partition_key event.tenant_id;
    sk = usage_key month event.event_id;
    event_id = str event.event_id;
    tenant_id = event.tenant_id;
    user_id = str (or_empty event.user_id);
    api_path = str event.api_path;
    http_method = str event.http_method;
    status_code = int (pos event.status_code);
    usage_units = pos event.usage_units;
    event_timestamp = event.timestamp;
    ingested_at = now;
  }

  accept_event-message_body :
      (event : UsageEvent) (month : String)
      → IsComplete month_of event month
      → accept_event month_of str_of now (message_body event) ≡ ok (item_of event month, month)
  unfolding accept_event validate read_event message_body get
  accept_event-message_body event month c =
      rw
        (
          text_or_null-or_empty event.user_id c.made_by,
          truthy-or_empty event.user_id c.made_by,
          truthy-strip event.tenant_id c.owned,
          c.numbered,
          c.owned,
          c.located,
          c.called,
          c.stamped,
          c.dated,
        )
        (ground arith)

module _ {S : Type 0} {ops : Ops S} (D : Dynamo ops) (reliable : IsReliable D)
    (accepts : Accepts ops) (month_of : String → Option String) (str_of : Json → String)
    (now : String) where
  -- With metering on and the queue set up, outside demo mode, take a signed-in request whose status
  -- is at least 200 and below 400. If the queue takes its event, and the event is complete and new to
  -- the ledger, and no call of DynamoDB fails, then the event is put into the queue once, and handling
  -- its message, delivered any number of times but not none, reports no failure, adds one request and
  -- one unit to the tenant's month, and changes no total of another tenant or month.
  pub billable_request-counted :
      {V : Type 0} (config : Config) (t : Telemetry) (request : Request) (i : Identity)
      (response : Response V) (o : Outbox)
      → config.usage_metering_enabled ≡ true
      → config.demo_mode ≡ false
      → truthy config.usage_events_queue_url ≡ true
      → 200 ≤ status_code response
      → status_code response < 400
      → let event = build_usage_event t i request.method request.path (status_code response) 1 in
        t.send event ≡ none
        → (month : String) → IsComplete month_of event month
        → (n : ℕ) (id : String) (s : S)
        → is_recorded (item_of month_of str_of now event month) (D.ledger s) ≡ false
        → let message : Message = record { message_id = id; body = object (message_body event) } in
          let (failures, s') = handler month_of str_of now ops (deliveries (suc n) message) s in
          let pk = partition_key i.tenant in
          (meter_usage config t request (some i) response o
            ≡ record o { queue = o.queue ++ event ∷ [] })
          × (failures ≡ [])
          × (D.total s' pk (month_key month)
              ≡ some (add_usage (pos 1) (D.total s pk (month_key month))))
          × ((p k : String)
              → (p == pk && k == month_key month) ≡ false
              → D.total s' p k ≡ D.total s p k)
  unfolding build_usage_event
  billable_request-counted config t request i response o on live set lo hi sent month c n id s new =
      let event = build_usage_event t i request.method request.path (status_code response) 1 in
      let accepted = accept_event-message_body month_of str_of now event month c in
      let (f, _, totals) =
        deliver-counts_once D reliable accepts month_of str_of now (message_body event)
          (item_of month_of str_of now event month) month id accepted n s new in
      (
        (meter_usage_sends config t request i response o on live set lo hi).0 sent,
        f,
        totals (partition_key i.tenant) (month_key month) ∙ rw (eq_refl, eq_refl) refl,
        λ p k other. totals p k ∙ rw other refl,
      )
