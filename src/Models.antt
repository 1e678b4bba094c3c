-- ===== src/Models.antt =====
-- The rows of the database (app/models/): a record for each model that the routes and services
-- touch, with an enumeration for each `StrEnum`. `updated_at`, which SQLAlchemy writes at each
-- flush and no code reads, is left out; `created_at` is kept where a query sorts by it.
pub mod Organization
pub mod Estate
pub mod Lease
pub mod Maintenance
pub mod Session
pub mod Billing
pub mod Audit
pub mod Content
