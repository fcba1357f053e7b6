-- ===== src/Tests/Delivered.antt =====
-- A test of usage_service.py and handler.py together.
use secure_multi_tenant_saas.Prelude.{
  String, ◌≡◌, ◌≢◌, refl, false, none, some, [], ◌∷◌, ◌&&◌, ◌==◌, arith,
}
use secure_multi_tenant_saas.Prelude.Text.{strip}
use secure_multi_tenant_saas.Prelude.Int.{pos}
use secure_multi_tenant_saas.Prelude.Exec.{Error}
use secure_multi_tenant_saas.Metering.Json.{object}
use secure_multi_tenant_saas.Metering.Store.{UsageItem, failed, add_usage}
use secure_multi_tenant_saas.Metering.Handler.{Message, handler}
use secure_multi_tenant_saas.Metering.Handler.Redelivery.{Accepts, deliveries}
use secure_multi_tenant_saas.UsageEvents.{UsageEvent, message_body, build_usage_event, meter_usage}
use secure_multi_tenant_saas.UsageEvents.Delivered.{IsComplete, billable_request-counted}
use secure_multi_tenant_saas.Tests.Fixtures.{live, ann, request}
use secure_multi_tenant_saas.Tests.Billing.{telemetry, outbox, response}
use secure_multi_tenant_saas.Tests.Metering.{
  Memory, empty, put_memory, tables, tables-Dynamo, working, january, shown, now,
}

never_failed : (item : UsageItem) (e : Error) (s : Memory) → (put_memory item s).0 ≢ failed e
never_failed item e s = λ h. ground arith

tables-Accepts : Accepts (tables false)
tables-Accepts = record { puts = never_failed }

-- Ann's request.
abbrev event : UsageEvent
event = build_usage_event telemetry ann "GET" "/api/v1/users" 200 1

event-IsComplete : IsComplete january event "2026-01"
unfolding build_usage_event strip
event-IsComplete = record {
  numbered = refl;
  owned = refl;
  made_by = refl;
  located = refl;
  called = refl;
  counts = omega arith;
  stamped = refl;
  dated = refl;
}

abbrev message : Message
message = record { message_id = "m1"; body = object (message_body event) }

billable_request-counted_example :
    let (failures, s') = handler january shown now (tables false) (deliveries 3 message) empty in
    (meter_usage live telemetry request (some ann) response outbox
      ≡ record { queue = event ∷ []; demo_events = [] })
    × (failures ≡ [])
    × (s'.totals "TENANT#TenantA" "MONTH#2026-01" ≡ some (add_usage (pos 1) none))
    × ((p k : String)
        → (p == "TENANT#TenantA" && k == "MONTH#2026-01") ≡ false
        → s'.totals p k ≡ none)
billable_request-counted_example =
    billable_request-counted (tables-Dynamo false) working tables-Accepts january shown now live
      telemetry request ann response outbox refl refl refl (omega arith) (omega arith) refl
      "2026-01" event-IsComplete 2 "m1" empty refl
