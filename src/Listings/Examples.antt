-- ===== src/Listings/Examples.antt =====
-- The listings of an organization with one property, among the properties of two, and with two work
-- orders, of which those that are closed are asked for.
use mytenancyplus.Prelude.{ℕ, String, Bool, ◌≡◌, ◌≤◌, refl, true, none, some, [], ◌∷◌}
use mytenancyplus.Prelude.Order.{IsOrder}
use mytenancyplus.Models.Organization.{User, owner}
use mytenancyplus.Models.Estate.{Property, EstateUnit}
use mytenancyplus.Models.Lease.{TenantProfile, Lease}
use mytenancyplus.Models.Audit.{AuditLog}
use mytenancyplus.Models.Maintenance.{WorkOrder, WorkOrderStatus, opened, closed, normal}
use mytenancyplus.Transaction.{Database, empty}
use mytenancyplus.Tenancy.{TenantContext}
use mytenancyplus.Properties.{list_properties, list_units}
use mytenancyplus.Leases.Listing.{list_tenants, list_leases}
use mytenancyplus.Maintenance.Listing.{list_work_orders}
use mytenancyplus.Notifications.{list_notifications, list_audit_logs}
use mytenancyplus.Documents.Listing.{list_documents}
use mytenancyplus.Listings.{Lists, Pages, ByNames, AskedOrder, AskedDocument, AskedNotification}
use mytenancyplus.Listings.Exact.{listings_exact}

abbrev user : User
user = record { id = 7; email = "a@b.c"; full_name = "A"; password_hash = "h"; is_active = true }

abbrev tenant : TenantContext
tenant = record { organization_id = 1; user_id = 7; role = owner }

abbrev house : ℕ → ℕ → Property
house id organization_id = record {
  id = id;
  organization_id = organization_id;
  name = "House";
  address_line = "1 Street";
  city = "Cairo";
  country_code = "EG";
}

abbrev leak : ℕ → WorkOrderStatus → WorkOrder
leak id status = record {
  id = id;
  organization_id = 1;
  property_id = 3;
  unit_id = none;
  title = "Leak";
  description = "In the kitchen";
  priority = normal;
  status = status;
  reported_by_id = 7;
  assigned_to_id = none;
  due_at = none;
  resolved_at = none;
  closed_at = none;
  created_at = id;
}

abbrev db : Database
db = record empty {
  properties = house 3 1 ∷ house 4 2 ∷ [];
  work_orders = leak 5 opened ∷ leak 6 closed ∷ [];
}

-- An order that does not tell texts apart.
abbrev any_order : String → String → Bool
any_order s t = true

any_order-IsOrder : IsOrder any_order
any_order-IsOrder = record { total = λ s t h. refl; trans = λ s t u h k. refl }

listings_exact_example :
    Lists
      (λ (p : Property). p.organization_id ≡ 1)
      (λ p q. any_order p.name q.name ≡ true)
      db.properties
      (list_properties any_order tenant)
      db
    × Lists
        (λ (u : EstateUnit). u.organization_id ≡ 1)
        (λ u v. any_order u.label v.label ≡ true)
        db.units
        (list_units any_order tenant)
        db
    × Lists
        (λ (t : TenantProfile). t.organization_id ≡ 1)
        (ByNames any_order)
        db.tenant_profiles
        (list_tenants any_order tenant)
        db
    × Lists
        (λ (l : Lease). l.organization_id ≡ 1)
        (λ l m. m.starts_on ≤ l.starts_on)
        db.leases
        (list_leases tenant)
        db
    × Lists
        (AskedOrder tenant (some closed))
        (λ v w. w.created_at ≤ v.created_at)
        db.work_orders
        (list_work_orders tenant (some closed))
        db
    × Lists
        (AskedDocument tenant (some "lease") none)
        (λ c d. d.created_at ≤ c.created_at)
        db.documents
        (list_documents tenant (some "lease") none)
        db
    × Pages
        (AskedNotification tenant user true)
        (λ m n. n.created_at ≤ m.created_at)
        50
        db.notifications
        (list_notifications tenant user true 50)
        db
    × Pages
        (λ (e : AuditLog). e.organization_id ≡ 1)
        (λ e f. f.created_at ≤ e.created_at)
        50
        db.audit_logs
        (list_audit_logs tenant 50)
        db
listings_exact_example =
    listings_exact tenant user db any_order any_order-IsOrder (some closed) (some "lease") none true
      50
