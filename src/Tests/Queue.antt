-- ===== src/Tests/Queue.antt =====
-- Tests of lambda-billing.py, on a database in memory.
use secure_multi_tenant_saas.Prelude.{
  ◌≡◌, ◌≢◌, refl, Bool, true, false, none, some, List, [], ◌∷◌, ◌++◌, arith,
}
use secure_multi_tenant_saas.Prelude.Dict.{Dict, get}
use secure_multi_tenant_saas.Prelude.Int.{ℤ, pos}
use secure_multi_tenant_saas.Prelude.Exec.{Result, ok, err, database_error}
use secure_multi_tenant_saas.Metering.Json.{Json, int, str}
use secure_multi_tenant_saas.BillingLambda.{
  object, malformed, UsageRow, Mysql, Worker, QueueRecord, first_try, lambda_handler,
}
use secure_multi_tenant_saas.BillingLambda.Reports.{IsMysql, lambda_handler-reports_all}

record Database : Type 0 where
  connected : Bool
  stored : List UsageRow
  pending : List UsageRow

abbrev when_open : Bool → (Database → Database) → Database → Result (Unit {0}) × Database
when_open true f s = (ok tt, f s)
when_open false f s = (err database_error, s)

abbrev secret : Dict Json
secret = ("host", str "db.test") ∷ ("db_username", str "svc") ∷ ("db_password", str "pw") ∷ []

abbrev mysql : Mysql Database
mysql = record {
  get_secret = λ s. (ok secret, s);
  connect = λ settings s. (ok tt, record s { connected = true });
  cursor = λ s. (ok tt, s);
  execute = λ row s. when_open s.connected (λ s. record s { pending = row ∷ [] }) s;
  close_cursor = λ s. (ok tt, s);
  commit =
      λ s. when_open s.connected (λ s. record s { stored = s.pending ++ s.stored; pending = [] }) s;
  rollback = λ s. when_open s.connected (λ s. record s { pending = [] }) s;
  close = λ s. when_open s.connected (λ s. record s { connected = false }) s;
}

closes : (s : Database) → (mysql.close s).0 ≡ ok tt → (mysql.close s).1.connected ≡ false
closes s h = ground arith

refuses :
    (row : UsageRow) (s : Database)
    → s.connected ≡ false
    → ((mysql.execute row s).0 ≢ ok tt) × ((mysql.execute row s).1.stored ≡ s.stored)
refuses row s h = ground arith

keeps_stored : (s : Database) → (mysql.rollback s).1.stored ≡ s.stored
keeps_stored s = ground arith

abbrev mysql-IsMysql : IsMysql mysql
mysql-IsMysql = record {
  is_open = λ s. s.connected;
  committed = λ s. s.stored;
  close_done = closes;
  closed_cursor = λ s h. (h, refl);
  closed_execute = refuses;
  closed_close_cursor = λ s. refl;
  closed_rollback = keeps_stored;
}

abbrev event : Dict Json
event =
    ("event_id", str "e1")
    ∷ ("tenant_id", str "TenantA")
    ∷ ("user_id", str "u1")
    ∷ ("action", str "GET /api/v1/users")
    ∷ ("api_path", str "/api/v1/users")
    ∷ ("http_method", str "GET")
    ∷ ("status_code", int (pos 200))
    ∷ ("usage_units", int (pos 1))
    ∷ []

abbrev row : UsageRow
row = record {
  event_id = str "e1";
  tenant_id = str "TenantA";
  user_id = str "u1";
  action = str "GET /api/v1/users";
  api_path = str "/api/v1/users";
  http_method = str "GET";
  status_code = int (pos 200);
  usage_units = int (pos 1);
  created_at = str "2026-01-06";
}

abbrev port : Json → Result ℤ
port v = ok (pos 3306)

abbrev idle : Worker Database
idle = record {
  db_credentials = none;
  services = record { connected = false; stored = []; pending = [] };
}

abbrev stored_row : Worker Database
stored_row = record {
  db_credentials = some secret;
  services = record { connected = false; stored = row ∷ []; pending = [] };
}

stores : first_try mysql port (str "2026-01-06") (object event) idle ≡ (ok row, stored_row)
unfolding first_try get
stores = refl

abbrev records : List QueueRecord
records =
    record { message_id = some "m1"; body = some (object event) }
    ∷ record { message_id = some "m2"; body = some malformed }
    ∷ []

lambda_handler-reports_all_example :
    (lambda_handler mysql port (str "2026-01-06") records idle).0 ≡ some "m1" ∷ some "m2" ∷ []
lambda_handler-reports_all_example =
    lambda_handler-reports_all mysql-IsMysql port (str "2026-01-06") records idle
