-- ===== src/Lib.antt =====
-- A Flask application for several tenants, with two Lambda functions behind it.
--
-- The paths below start at Flask app/tenant-saas-app-fixed/tenant-saas-app, but for the last one.
--
-- A request is made by an identity: tenant, role and group. decorators.py finds it, in the session,
-- in a JSON Web Token (auth.py) or in the headers of a gateway, and lets it through to a view or
-- not; cognito_service.py fetches and refreshes its tokens. The views read and write the users of
-- the tenant (rds_service.py) and show its invoices (billing_service.py). After each response a hook
-- of app.py has usage_service.py put an event into a queue; metering_lambda/handler.py takes events
-- from the queue, records each once in a ledger and adds it to the month's aggregate, which the
-- invoices are computed from.
--
--   Prelude         tests, lists, texts, dictionaries, integers, and code that may raise
--   Config          config.py: `config_of` gives the settings for an environment
--   Web             Flask: identity, session, request, response; a view is a function on `World`
--   Auth            auth.py: `validate_jwt`, `resolve_tenant_and_role`
--   Cognito         services/cognito_service.py: `TokenEndpoint` has the requests to the token
--                   endpoint, `UserPool` the users of the pool
--   Decorators      decorators.py: `Identify` finds the identity, `Gate` has the decorators
--   Login           routes/auth_pages.py: `Pages` has the views, `Callback`, `RoundTrip` and `Visits`
--                   what they do to a session
--   Metering        metering_lambda/handler.py: `Event` validates, `Store` has the tables' interface,
--                   `Handler` is the handler, and its `Workers` several invocations of it at once
--   Rds             services/rds_service.py: `Row` is a user's record, `Demo` has the operations in
--                   memory, `Sql` those on the database (with database.py), `Service` chooses and has
--                   the abstract specification of both, `Users` the interface that the views use
--   Billing         services/billing_service.py: `Usage` reads the aggregate, `Invoice` prices it,
--                   `Metered` holds both against the ledger of metering
--   UsageEvents     services/usage_service.py, and `meter_usage` of app.py; `Delivered` follows an
--                   event from the response through the queue to the aggregate
--   Password        routes/password.py: the rules; `Temporary` is `_generate_temp_password` of
--                   services/cognito_service.py
--   Secrets         services/secret_service.py, with its cache
--   BillingLambda   Billing Function/Lambda function/lambda-billing.py
--   Kms             services/kms_service.py
--   App             app.py: the start of the application, error pages, headers
--   Routes          routes/users.py, admin.py, billing.py, health.py and the pages of password.py;
--                   `Invariants` and `Isolation` have what they keep, `Answers` how they end
--   Site            the routes behind their decorators, and requests one after the other
--   Tests           the theorems at concrete inputs
--
-- Functions keep the names they have in Python, without the leading underscore. State is passed on
-- explicitly: a function on the state returns the new one beside its result, and an exception is a
-- value of `Error` beside the state that it leaves. Python's dictionaries with known keys are
-- records, where an absent key is `none`; other dictionaries are lists of pairs.
--
-- What is outside the repository is a parameter: PyJWT, Cognito's endpoint, DynamoDB, MySQL, SQS,
-- Secrets Manager, KMS, the clock, the parser of dates, and floats. What is relied on is in the records
-- `Dynamo`, `IsReliable`, `Accepts`, `ReadsTable`, `IsMysql`, `IsDriver`, `HasInverses` and `IsMoney`.
--
-- Invocations of the handler that run at once are machines that make one call of DynamoDB at a time;
-- a schedule says whose turn it is, and one that is not scheduled again has died.
--
-- Loops go over lists, except `generate_temp_password`, whose loop in Python has no bound: it has
-- fuel, one unit for an attempt. More fuel than the number of the first accepted attempt is enough.
-- Natural numbers stand for amounts and times that are not negative, as the program's are; nothing
-- here has the width of a machine's integer. Of the lifetime of tokens it is kept what `int` makes
-- of it, an exception or a number of seconds that is not negative. `lower` changes the letters of
-- ASCII only. `Login` takes the look-up of the user as an action on the services.
--
-- A transaction is a sequence of statements between a connection and a commit; `IsDriver` says what
-- is relied on of it, a failed commit that may have been done included. In the database a row is
-- found by the weight of its identifier in the column's collation, which takes no notice of case by
-- default; in memory by the identifier itself. The order of rows is left open. An empty DATE is read
-- as the empty text. `int` of a text reads ASCII digits.
--
-- Not modelled: logging, templates and static files; of app.py, ProxyFix, CSRF protection and the
-- globals of templates, which are set-up of libraries; of database.py, the lengths of columns and the
-- ENUM, which the database checks; how long a lifetime `timedelta` takes; requests of the web
-- application that run at the same time.
pub mod Prelude
pub mod Config
pub mod Web
pub mod Auth
pub mod Cognito
pub mod Decorators
pub mod Metering
pub mod Rds
pub mod Billing
pub mod UsageEvents
pub mod Password
pub mod BillingLambda
pub mod Login
pub mod Secrets
pub mod Kms
pub mod App
pub mod Routes
pub mod Site
mod Tests
