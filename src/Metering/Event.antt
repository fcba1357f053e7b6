-- ===== src/Metering/Event.antt =====
-- handler.py, `_validate` and `_billing_month`. The parser of dates is a parameter: `month_of s` is
-- `datetime.fromisoformat(s).strftime("%Y-%m")`, `none` if the text is no date.
use Prim.Native.String
use secure_multi_tenant_saas.Prelude.{
  String, code, Bool, true, false, not, Option, none, some, List, [], ◌∷◌, ◌&&◌, any_of, truthy,
  is_some, eqb, if◌then◌else◌,
}
use secure_multi_tenant_saas.Prelude.Text.{strip}
use secure_multi_tenant_saas.Prelude.Dict.{Dict, get}
use secure_multi_tenant_saas.Prelude.Exec.{Result, ok, err, invalid_usage_event}
use secure_multi_tenant_saas.Metering.Json.{Json, str, is_positive_number, is_int, is_blank}

abbrev pub required_fields : List String
required_fields =
    "event_id" ∷ "tenant_id" ∷ "user_id" ∷ "api_path" ∷ "http_method" ∷ "status_code"
    ∷ "usage_units" ∷ "timestamp" ∷ []

abbrev is_missing_value : Option Json → Bool
is_missing_value none = true
is_missing_value (some v) = is_blank v

abbrev pub is_missing : Dict Json → String → Bool
is_missing event field = is_missing_value (get event field)

abbrev valid_tenant : Option Json → Bool
valid_tenant (some (str s)) = truthy (strip s)
valid_tenant _ = false

abbrev valid_units : Option Json → Bool
valid_units none = false
valid_units (some v) = is_positive_number v

abbrev valid_status : Option Json → Bool
valid_status none = false
valid_status (some v) = is_int v

-- `s.replace("Z", "+00:00")`
unfoldable pub with_offset : String → String
with_offset String.[] = String.[]
with_offset (String.◌∷◌ c s) =
    let rest = with_offset s in
    if eqb (code c) b'Z' then String.◌++◌ "+00:00" rest else String.◌∷◌ c rest

module _ (month_of : String → Option String) where
  abbrev valid_timestamp : Option Json → Bool
  valid_timestamp (some (str s)) = is_some (month_of (with_offset s))
  valid_timestamp _ = false

  -- All refusals are `InvalidUsageEvent`.
  unfoldable pub validate : Dict Json → Result (Unit {0})
  validate event =
      if not (any_of (is_missing event) required_fields)
        && valid_tenant (get event "tenant_id")
        && valid_units (get event "usage_units")
        && valid_timestamp (get event "timestamp")
        && valid_status (get event "status_code")
      then ok tt
      else err invalid_usage_event
