-- ===== src/UsageEvents.antt =====
-- Flask app/tenant-saas-app-fixed/tenant-saas-app/services/usage_service.py, and the hook of app.py
-- that calls it: one usage event for each billable request. The identifier of an event and its
-- timestamp are parameters, and so is the queue.
pub mod Billable
pub mod Delivered
use Prim.Native.String
use secure_multi_tenant_saas.Prelude.{
  ℕ, String, Bool, true, false, not, Option, none, some, List, [], ◌∷◌, ◌++◌, ◌&&◌, ◌||◌, leb, ltb,
  or_else, truthy, if◌then◌else◌,
}
use secure_multi_tenant_saas.Prelude.Dict.{Dict}
use secure_multi_tenant_saas.Prelude.Int.{pos}
use secure_multi_tenant_saas.Prelude.Exec.{Error}
use secure_multi_tenant_saas.Metering.Json.{Json, null, int, str}
use secure_multi_tenant_saas.Config.{Config}
use secure_multi_tenant_saas.Web.{Identity, Request, Response, status_code}

pub record UsageEvent : Type 0 where
  pub event_id : String
  pub tenant_id : String
  pub user_id : Option String
  pub action : String
  pub api_path : String
  pub http_method : String
  pub status_code : ℕ
  pub usage_units : ℕ
  pub timestamp : String

abbrev text_or_null : Option String → Json
text_or_null none = null
text_or_null (some s) = str s

-- `json.dumps(event)`, as `json.loads` reads it again.
unfoldable pub message_body : UsageEvent → Dict Json
message_body event =
    ("event_id", str event.event_id)
    ∷ ("tenant_id", str event.tenant_id)
    ∷ ("user_id", text_or_null event.user_id)
    ∷ ("action", str event.action)
    ∷ ("api_path", str event.api_path)
    ∷ ("http_method", str event.http_method)
    ∷ ("status_code", int (pos event.status_code))
    ∷ ("usage_units", int (pos event.usage_units))
    ∷ ("timestamp", str event.timestamp)
    ∷ []

-- What the module has sent and kept: the messages in the queue, and `_demo_published_events`.
pub record Outbox : Type 0 where
  pub queue : List UsageEvent
  pub demo_events : List UsageEvent

-- `uuid4()` and the time as text, and what `send_message` answers: an exception is `some`, and the
-- message is then not in the queue.
pub record Telemetry : Type 0 where
  pub event_id : String
  pub timestamp : String
  pub send : UsageEvent → Option Error

is_billable_status : ℕ → Bool
is_billable_status status = leb 200 status && ltb status 400

-- `a or b or c`
pub user_of : Identity → Option String
user_of i = or_else (or_else i.user_id i.sub) i.username

unfoldable pub build_usage_event : Telemetry → Identity → String → String → ℕ → ℕ → UsageEvent
unfolding user_of
build_usage_event t i method path status units = record {
  event_id = t.event_id;
  tenant_id = i.tenant;
  user_id = user_of i;
  action = String.◌++◌ method (String.◌++◌ " " path);
  api_path = path;
  http_method = method;
  status_code = status;
  usage_units = units;
  timestamp = t.timestamp;
}

enqueue : Option Error → UsageEvent → Outbox → Outbox
enqueue none event o = record o { queue = o.queue ++ event ∷ [] }
enqueue (some e) event o = o

-- `_publish`; an exception of the queue is caught by the caller, which changes nothing more.
publish : Config → Telemetry → UsageEvent → Outbox → Outbox
unfolding enqueue
publish config t event o =
    if config.demo_mode || not config.usage_metering_enabled
    then record o { demo_events = o.demo_events ++ event ∷ [] }
    else if truthy config.usage_events_queue_url
    then enqueue (t.send event) event o
    else o

unfoldable pub record_api_usage :
    Config → Telemetry → Option Identity → String → String → ℕ → ℕ → Outbox → Outbox
unfolding is_billable_status publish
record_api_usage config t none method path status units o = o
record_api_usage config t (some i) method path status units o =
    if not config.usage_metering_enabled && not config.demo_mode
    then o
    else if is_billable_status status
    then publish config t (build_usage_event t i method path status units) o
    else o

-- The hook `meter_usage` of app.py, after a view has made its response: `identity` is `g.identity`.
unfoldable pub meter_usage :
    {V : Type 0} → Config → Telemetry → Request → Option Identity → Response V → Outbox → Outbox
unfolding record_api_usage
meter_usage config t request identity response o =
    record_api_usage config t identity request.method request.path (status_code response) 1 o
