-- ===== src/Lib.antt =====
-- A verification library for MyTenancyPlus, the API of a property-management service in Python
-- (FastAPI, SQLAlchemy). It models the code under app/ and migrations/ that decides things: who may
-- do what in which organization, how refresh tokens rotate, when a unit may be let, how work orders
-- move, what becomes of uploaded documents, what a billing event does, and which tables there are.
--
-- The program and its model:
--   * The database (app/models, app/db) is a record of tables, each a list of rows: Models and its
--     children, one per file of app/models, and Transaction. A request is an action on a session,
--     which holds what is committed and what its own transaction sees; a handler that raises is
--     rolled back to what was committed (get_db). The queries of SQLAlchemy are `scalar`, `select`
--     and `update_where` of Prelude/Tables.antt.
--   * Config models app/core/config.py, Security app/core/security.py, Tenancy
--     app/api/dependencies.py, Audit the two services that add audit entries and notifications.
--   * Maintenance models app/services/maintenance.py, and Maintenance/Routes.antt the routes of
--     app/api/routes/maintenance.py. Sessions models app/services/sessions.py, and
--     Sessions/Routes.antt app/api/routes/auth.py. Leases models app/services/leases.py and
--     app/api/routes/leases.py, Billing app/services/billing.py and the webhook of
--     app/api/routes/billing.py. Organizations models
--     app/api/routes/organizations.py, Outbox the worker of app/workers/tasks.py, and RateLimit
--     app/core/rate_limit.py.
--   * Properties, Notifications and Dashboard model the routes of app/api/routes/properties.py,
--     notifications.py, audit.py and dashboard.py. The Listing modules of Maintenance, Leases,
--     Organizations, Billing and Documents hold the requests of those routes that only read.
--     Organizations/Acceptance.antt holds the acceptance of an invitation,
--     Billing/Subscriptions.antt what an event does to a row, Documents/Deletion.antt the deletion.
--   * Storage models app/services/storage.py: Storage/Paths.antt what it uses of pathlib,
--     Storage/Names.antt the safe file names, Storage/Keys.antt where keys lead to, and
--     Storage/Uploads.antt how an upload ends. Documents models app/api/routes/documents.py, over a
--     database and files together.
--   * Isolation and Listings speak of the routes together: Isolation of what one organization sees
--     of the writes of others and of what its rows refer to, Listings of what a listing is to be.
--     Policies models the row-level security that migrations/versions sets up.
--   * Schema models migrations/versions: Schema.antt the operations of alembic and what they do to a
--     catalog of tables, Schema/Initial.antt and Schema/Product.antt the two migrations,
--     Schema/Declared.antt and Schema/Metadata.antt what app/models declares, Schema/Frame.antt
--     migrations beside tables of others, Schema/Rows.antt which values the columns take. Requests
--     models the bounds of app/schemas/property.py, maintenance.py and auth.py, Http the middleware of
--     app/main.py with app/api/routes/health.py.
--   * Functions and types have the names of the source, in snake_case and UpperCamelCase. `EstateUnit`
--     is the source's `Unit`, `opened` its `OPEN`.
--   * The remaining modules of a component are proofs: Outcome modules say in one rule how an
--     operation can end, and the others draw on it. Examples modules and Schema/Samples.antt hold
--     the tests.
--
-- What stands for what:
--   * A UUID, a moment (microseconds), a day (ordinal) and an amount of money (cents) are natural
--     numbers. What uuid4, token_urlsafe and the clock give are arguments.
--   * PyJWT is the interface `Jwt` with its round trip, its expiry and its checks of `iat`, `nbf`,
--     `sub`, `jti` and `aud`, the texts of UUIDs are `Rendering`, sha256, hmac and json.loads are fields of `Parsing` or arguments. Each has an
--     instance in an Examples module. Redis is a list of messages, with a test for those it takes, or
--     counters by key. Files are a function from paths to contents, the order of texts in the
--     database and str.upper are arguments.
--   * One request runs at a time. Where the code guards against another one, the interference is an
--     argument: the receipts that other deliveries of a billing event commit. Leases/Race.antt speaks
--     of two requests that one database accepts, Outbox/Workers.antt of two workers, one of which
--     claims its events while the other holds its own.
--   * All loops are over the rows of a table or the characters of a text, so no fuel is needed.
--   * PostgreSQL refuses an operation as it documents: a name that is taken or missing, a table that
--     others refer to, a value that a column does not take. The last of these is a test beside the
--     requests, which do not make it themselves. Headers and metrics are functions of their names.
--
-- Not modelled: the wiring of FastAPI, arq, redis and structlog, CORS and the start of the
-- application, which are calls of libraries, the bounds of the schemas other than
-- app/schemas/property.py, WorkOrderCreate and RefreshTokenRequest, writes of files that fail, and the
-- web client.
pub mod Prelude
pub mod Models
pub mod Transaction
pub mod Text
pub mod Config
pub mod Security
pub mod Audit
pub mod Tenancy
pub mod Maintenance
pub mod Sessions
pub mod Leases
pub mod Billing
pub mod Organizations
pub mod RateLimit
pub mod Outbox
pub mod Properties
pub mod Notifications
pub mod Dashboard
pub mod Storage
pub mod Documents
pub mod Isolation
pub mod Policies
pub mod Requests
pub mod Http
pub mod Schema
pub mod Listings
