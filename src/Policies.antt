-- ===== src/Policies.antt =====
-- Row-level security, as migrations/versions/0001_initial.py and 0002_product_operations.py set it up:
-- the rows that PostgreSQL shows to a role that does not bypass it. The setting is that of
-- app.current_organization_id in the transaction.
pub mod Agreement
pub mod Checked
pub mod Examples
use mytenancyplus.Prelude.{Uuid, Bool, false, ◌==◌, Option, none, some}
use mytenancyplus.Prelude.Tables.{select}
use mytenancyplus.Transaction.{Database}

-- The condition of tenant_isolation, for the organization of a row: nothing equals null.
abbrev pub tenant_isolation : Option Uuid → Uuid → Bool
tenant_isolation none organization_id = false
tenant_isolation (some o) organization_id = organization_id == o

-- The TENANT_TABLES of the first migration.
unfoldable pub secure_initial : Option Uuid → Database → Database
secure_initial setting db = record db {
  properties = select (λ p. tenant_isolation setting p.organization_id) db.properties;
  units = select (λ u. tenant_isolation setting u.organization_id) db.units;
  tenant_profiles = select (λ t. tenant_isolation setting t.organization_id) db.tenant_profiles;
  leases = select (λ l. tenant_isolation setting l.organization_id) db.leases;
  invitations = select (λ i. tenant_isolation setting i.organization_id) db.invitations;
  audit_logs = select (λ e. tenant_isolation setting e.organization_id) db.audit_logs;
}

-- Those of the second.
unfoldable pub secure_operations : Option Uuid → Database → Database
secure_operations setting db = record db {
  subscriptions = select (λ s. tenant_isolation setting s.organization_id) db.subscriptions;
  work_orders = select (λ w. tenant_isolation setting w.organization_id) db.work_orders;
  work_order_comments =
      select (λ c. tenant_isolation setting c.organization_id) db.work_order_comments;
  documents = select (λ d. tenant_isolation setting d.organization_id) db.documents;
  notifications = select (λ n. tenant_isolation setting n.organization_id) db.notifications;
}

-- What a transaction with the setting sees of the database.
abbrev pub secured : Option Uuid → Database → Database
secured setting db = secure_operations setting (secure_initial setting db)
