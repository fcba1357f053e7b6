-- ===== src/Metering/Handler.antt =====
-- handler.py, `_process_event` and `handler`. `str_of` is what `str` makes of a value that is no
-- string, `month_of` as in `Event`, and `now` the time of the invocation, as text.
pub mod Keys
pub mod Once
pub mod Rollup
pub mod Recovery
pub mod Redelivery
pub mod Workers
use Prim.Native.String
use secure_multi_tenant_saas.Prelude.{String, Option, none, some, List, [], ◌∷◌, if◌then◌else◌}
use secure_multi_tenant_saas.Prelude.Dict.{Dict, get}
use secure_multi_tenant_saas.Prelude.Exec.{
  Error, Result, ok, err, Exec, and_then, lift, ◌>>=◌, key_error, type_error, value_error,
  or_value_error,
}
use secure_multi_tenant_saas.Metering.Json.{Json, str, Body, object, other_value, malformed, to_int}
use secure_multi_tenant_saas.Metering.Event.{with_offset, validate}
use secure_multi_tenant_saas.Metering.Store.{UsageItem, PutReply, done, duplicate, failed, Ops}

-- `event[name]`
abbrev or_key_error : Option Json → Result Json
or_key_error none = err key_error
or_key_error (some v) = ok v

abbrev field : Dict Json → String → Result Json
field event name = or_key_error (get event name)

-- A value that is used as a text.
abbrev as_text : Json → Result String
as_text (str s) = ok s
as_text _ = err type_error

-- One message of the batch.
pub record Message : Type 0 where
  pub message_id : String
  pub body : Body

abbrev pub partition_key : String → String
partition_key tenant_id = String.◌++◌ "TENANT#" tenant_id

abbrev pub usage_key : String → String → String
usage_key month event_id = String.◌++◌ "USAGE#" (String.◌++◌ month (String.◌++◌ "#" event_id))

abbrev pub month_key : String → String
month_key month = String.◌++◌ "MONTH#" month

module _ (month_of : String → Option String) (str_of : Json → String) (now : String) where
  -- What a format string makes of a value.
  format : Json → String
  format (str s) = s
  format v = str_of v

  -- `_billing_month`
  billing_month : String → Result String
  billing_month timestamp = or_value_error (month_of (with_offset timestamp))

  -- The item for the ledger and the month, read from an event that has been validated.
  unfoldable pub read_event : Dict Json → Result (UsageItem × String)
  unfolding format billing_month
  read_event event = and_then (field event "tenant_id") λ tenant.
      and_then (as_text tenant) λ tenant_id. and_then (field event "event_id") λ event_id.
        and_then (field event "timestamp") λ stamp. and_then (as_text stamp) λ timestamp.
          and_then (billing_month timestamp) λ month. and_then (field event "usage_units") λ units.
            and_then (to_int units) λ usage_units. and_then (field event "user_id") λ user_id.
              and_then (field event "api_path") λ api_path.
                and_then (field event "http_method") λ http_method.
                  and_then (field event "status_code") λ status_code. ok (
                    record {
                      pk = partition_key tenant_id;
                      sk = usage_key month (format event_id);
                      event_id = event_id;
                      tenant_id = tenant_id;
                      user_id = user_id;
                      api_path = api_path;
                      http_method = http_method;
                      status_code = status_code;
                      usage_units = usage_units;
                      event_timestamp = timestamp;
                      ingested_at = now;
                    },
                    month,
                  )

  unfoldable pub accept_event : Dict Json → Result (UsageItem × String)
  accept_event event = and_then (validate month_of event) λ _. read_event event

  module _ {S : Type 0} (ops : Ops S) where
    abbrev raise_if_failed : Option Error → Exec S (Unit {0})
    raise_if_failed none s = (ok tt, s)
    raise_if_failed (some e) s = (err e, s)

    -- `aggregate_table.update_item(…)`
    pub add_to_aggregate : UsageItem → String → Exec S (Unit {0})
    add_to_aggregate item month s =
        let (r, s') =
          ops.update_item item.pk (month_key month) item.usage_units now item.tenant_id month s in
        raise_if_failed r s'

    -- What follows the conditional PutItem: a duplicate is no error.
    after_put : UsageItem → String → PutReply → Exec S (Unit {0})
    after_put item month done = add_to_aggregate item month
    after_put item month duplicate = λ s. (ok tt, s)
    after_put item month (failed e) = λ s. (err e, s)

    store_event : UsageItem × String → Exec S (Unit {0})
    store_event (item, month) s = let (r, s') = ops.put_item item s in after_put item month r s'

    -- `_process_event`
    pub process_event : Dict Json → Exec S (Unit {0})
    process_event event = lift (accept_event event) >>= store_event

    process_body : Body → Exec S (Unit {0})
    process_body (object event) = process_event event
    process_body other_value = λ s. (err type_error, s)
    process_body malformed = λ s. (err value_error, s)

    -- Every exception puts the message among the failures.
    abbrev report_message : Result (Unit {0}) → String → List String → List String
    report_message (ok _) message_id failures = failures
    report_message (err e) message_id failures = message_id ∷ failures

    -- `handler`: the identifiers in `batchItemFailures`.
    pub handler : List Message → S → List String × S
    handler [] s = ([], s)
    handler (m ∷ messages) s =
        let (r, s') = process_body m.body s in
        let (failures, s'') = handler messages s' in (report_message r m.message_id failures, s'')
