-- ===== src/BillingLambda.antt =====
-- Billing Function/Lambda function/lambda-billing.py: usage events from the queue into MySQL.
-- Secrets Manager, PyMySQL, Python's `int` and the clock are parameters.
pub mod Reports
use secure_multi_tenant_saas.Prelude.{
  String, Bool, true, false, not, Option, none, some, List, [], ◌∷◌, map, ◌==◌, any_of, get_or,
  is_some, eqb, ◌||◌, if◌then◌else◌,
}
use secure_multi_tenant_saas.Prelude.Text.{codes, is_infix}
use secure_multi_tenant_saas.Prelude.Int.{ℤ, pos, negsuc}
use secure_multi_tenant_saas.Prelude.Dict.{Dict, get}
use secure_multi_tenant_saas.Prelude.Exec.{
  Error, Result, ok, err, and_then, Exec, pure, raise, lift, modify, try_except, ◌>>=◌, ◌>>◌,
  key_error, type_error, value_error,
}
use secure_multi_tenant_saas.Metering.Json.{Json, null, bool, int, float, str, nested, is_blank}

-- The body of a record as JSON: an object, an array with its texts, a text, or another value.
pub data Payload : Type 0 where
  object : Dict Json → Payload
  array : List String → Payload
  text : String → Payload
  other_value malformed : Payload

-- The values of the INSERT; a key that is absent is null.
pub record UsageRow : Type 0 where
  pub event_id : Json
  pub tenant_id : Json
  pub user_id : Json
  pub action : Json
  pub api_path : Json
  pub http_method : Json
  pub status_code : Json
  pub usage_units : Json
  pub created_at : Json

pub record Settings : Type 0 where
  pub host : Json
  pub user : Json
  pub password : Json
  pub database : Json
  pub port : ℤ

-- The calls on the outside: the secret with its JSON loaded, and a connection with its cursor.
-- `connect` makes the connection that the other calls are about.
pub record Mysql (S : Type 0) : Type 0 where
  pub get_secret : S → Result (Dict Json) × S
  pub connect : Settings → S → Result (Unit {0}) × S
  pub cursor : S → Result (Unit {0}) × S
  pub execute : UsageRow → S → Result (Unit {0}) × S
  pub close_cursor : S → Result (Unit {0}) × S
  pub commit : S → Result (Unit {0}) × S
  pub rollback : S → Result (Unit {0}) × S
  pub close : S → Result (Unit {0}) × S

-- The module's `db_credentials`, and what is outside.
pub record Worker (S : Type 0) : Type 0 where
  pub db_credentials : Option (Dict Json)
  pub services : S

pub record QueueRecord : Type 0 where
  pub message_id : Option String
  pub body : Option Payload

abbrev or_key_error {ℓ} : {A : Type ℓ} → Option A → Result A
or_key_error none = err key_error
or_key_error (some v) = ok v

abbrev field_or_null : Dict Json → String → Json
field_or_null d name = get_or (get d name) null

abbrev is_zero : ℤ → Bool
is_zero (pos n) = eqb n 0
is_zero (negsuc n) = false

-- Is `not v` true? An array or object within an event is kept as its text.
abbrev is_falsy : Json → Bool
is_falsy (bool b) = not b
is_falsy (int n) = is_zero n
is_falsy (float m e) = is_zero m
is_falsy (nested s) = s == "[]" || s == "{}"
is_falsy v = is_blank v

-- `v or now`
abbrev or_now : Json → Json → Json
or_now v now = if is_falsy v then now else v

row_of : Json → Dict Json → Json → UsageRow
row_of now d event_id = record {
  event_id = event_id;
  tenant_id = field_or_null d "tenant_id";
  user_id = field_or_null d "user_id";
  action = field_or_null d "action";
  api_path = field_or_null d "api_path";
  http_method = field_or_null d "http_method";
  status_code = field_or_null d "status_code";
  usage_units = get_or (get d "usage_units") (int (pos 1));
  created_at = or_now (field_or_null d "created_at") now;
}

values_of : Json → Payload → Result UsageRow
unfolding row_of
values_of now (object d) = and_then (or_key_error (get d "event_id")) λ id. ok (row_of now d id)
values_of now _ = err type_error

abbrev required_fields : List String
required_fields =
    "event_id" ∷ "tenant_id" ∷ "user_id" ∷ "action" ∷ "api_path" ∷ "http_method" ∷ "status_code"
    ∷ "usage_units" ∷ []

-- `field not in data`, for one of the fields at least.
misses : Payload → Result Bool
misses (object d) = ok (any_of (λ name. not (is_some (get d name))) required_fields)
misses (array names) = ok (any_of (λ name. not (any_of (λ n. n == name) names)) required_fields)
misses (text s) = ok (any_of (λ name. not (is_infix (codes name) (codes s))) required_fields)
misses other_value = err type_error
misses malformed = err value_error

module _ {S : Type 0} (ops : Mysql S) (int_of : Json → Result ℤ) (now : Json) where
  abbrev call : {A : Type 0} → (S → Result A × S) → Exec (Worker S) A
  call f w = let (r, s) = f w.services in (r, record w { services = s })

  or_fetch : Option (Dict Json) → Exec (Worker S) (Dict Json)
  or_fetch (some c) = pure c
  or_fetch none =
      call ops.get_secret >>= λ c. modify (λ w. record w { db_credentials = some c }) >> pure c

  get_db_credentials : Exec (Worker S) (Dict Json)
  unfolding or_fetch
  get_db_credentials w = or_fetch w.db_credentials w

  settings_of : Dict Json → Result Settings
  settings_of c = and_then (or_key_error (get c "host")) λ host.
      and_then (or_key_error (get c "db_username")) λ user.
        and_then (or_key_error (get c "db_password")) λ password.
          and_then (int_of (get_or (get c "port") (int (pos 3306)))) λ port. ok (record {
            host = host;
            user = user;
            password = password;
            database = get_or (get c "database") (str "saas_database");
            port = port;
          })

  get_db_connection : Exec (Worker S) (Unit {0})
  unfolding settings_of get_db_credentials
  get_db_connection =
      get_db_credentials >>= λ c. lift (settings_of c) >>= λ settings. call (ops.connect settings)

  -- The first `try`, from the values on.
  insert_row : Payload → Exec (Worker S) UsageRow
  unfolding values_of
  insert_row payload = lift (values_of now payload) >>= λ row.
      call ops.cursor
      >> call (ops.execute row)
      >> call ops.commit
      >> call ops.close_cursor
      >> call ops.close
      >> pure row

  -- Its handler: there is a connection to roll back and to close only once it has been made.
  abbrev abandon : Error → Exec (Worker S) UsageRow
  abandon e = call ops.rollback >> call ops.close >> raise e

  unfoldable pub first_try : Payload → Exec (Worker S) UsageRow
  unfolding get_db_connection insert_row
  first_try payload = get_db_connection >> try_except (insert_row payload) (λ e. true) abandon

  -- The second `try`; the cursor is closed on leaving the `with`.
  second_try : UsageRow → Exec (Worker S) (Unit {0})
  second_try row =
      try_except
        (call ops.cursor
          >> try_except (call (ops.execute row)) (λ e. true) (λ e. call ops.close_cursor >> raise e)
          >> call ops.close_cursor
          >> call ops.commit)
        (λ e. true) (λ e. call ops.rollback >> raise e)

  pub insert_usage_record : Payload → Exec (Worker S) (Unit {0})
  unfolding first_try second_try
  insert_usage_record payload = first_try payload >>= second_try

  insert_if : Payload → Bool → Exec (Worker S) (Unit {0})
  insert_if payload missing = if missing then raise value_error else insert_usage_record payload

  process_record : QueueRecord → Exec (Worker S) (Unit {0})
  unfolding insert_if misses
  process_record r =
      lift (or_key_error r.body) >>= λ payload. lift (misses payload) >>= insert_if payload

  abbrev report_record :
      Result (Unit {0}) → Option String → List (Option String) → List (Option String)
  report_record (ok _) message_id failures = failures
  report_record (err e) message_id failures = message_id ∷ failures

  -- The identifiers in `batchItemFailures`.
  pub lambda_handler : List QueueRecord → Worker S → List (Option String) × Worker S
  unfolding process_record
  lambda_handler [] w = ([], w)
  lambda_handler (r ∷ records) w =
      let (result, w') = process_record r w in
      let (failures, w'') = lambda_handler records w' in
      (report_record result r.message_id failures, w'')
