-- ===== src/Listings/Exact.antt =====
-- The listings of an organization, beside their rows.
use mytenancyplus.Prelude.{
  ℕ, Uuid, String, Bool, true, false, ◌≡◌, ◌≤◌, ◌==◌, refl, leb, Option, none, some, ==_iff,
}
use mytenancyplus.Prelude.Order.{IsOrder}
use mytenancyplus.Models.Organization.{User}
use mytenancyplus.Models.Estate.{Property, EstateUnit}
use mytenancyplus.Models.Lease.{TenantProfile, Lease}
use mytenancyplus.Models.Audit.{AuditLog}
use mytenancyplus.Models.Maintenance.{WorkOrderStatus}
use mytenancyplus.Transaction.{Database}
use mytenancyplus.Tenancy.{TenantContext}
use mytenancyplus.Properties.{list_properties, list_units}
use mytenancyplus.Leases.Listing.{list_tenants, list_leases}
use mytenancyplus.Maintenance.Listing.{list_work_orders, newest_first}
use mytenancyplus.Notifications.{list_notifications, list_audit_logs}
use mytenancyplus.Documents.Listing.{list_documents}
use mytenancyplus.Listings.{Lists, Pages, ByNames, AskedOrder, AskedDocument, AskedNotification}
use mytenancyplus.Listings.Queries.{query-Lists, query-Pages}
use mytenancyplus.Listings.Meanings.{
  later_created, later-IsOrder, organization-IsQuery, names-IsQuery, created-IsOrder, order-IsQuery,
  document-IsQuery, received-IsQuery, unread-IsQuery,
}

module _ (tenant : TenantContext) (user : User) (db : Database) where
  orders_listed :
      (status : Option WorkOrderStatus)
      → Lists
          (AskedOrder tenant status)
          (λ v w. w.created_at ≤ v.created_at)
          db.work_orders
          (list_work_orders tenant status)
          db
  unfolding list_work_orders
  orders_listed none =
      query-Lists _ _ (λ w. w.organization_id == tenant.organization_id) newest_first
        (record {
          sound = λ w h. ((==_iff w.organization_id tenant.organization_id).0 h, tt);
          exact = λ w h. (==_iff w.organization_id tenant.organization_id).1 h.0;
          order = created-IsOrder tenant (λ w. w.created_at);
          meaning = λ v w h. later_created v.created_at w.created_at h;
        })
        db.work_orders _ db refl
  orders_listed (some s) = query-Lists _ _ _ _ (order-IsQuery tenant s) db.work_orders _ db refl

  notifications_listed :
      (unread_only : Bool) (limit : ℕ)
      → Pages
          (AskedNotification tenant user unread_only)
          (λ m n. n.created_at ≤ m.created_at)
          limit
          db.notifications
          (list_notifications tenant user unread_only limit)
          db
  unfolding list_notifications
  notifications_listed false limit =
      query-Pages _ _ _ _ (received-IsQuery tenant user) limit db.notifications _ db refl
  notifications_listed true limit =
      query-Pages _ _ _ _ (unread-IsQuery tenant user) limit db.notifications _ db refl

  -- Each listing has the rows of the organization that it is asked for, all of them and no
  -- others, in its order; with a limit, the first of them. Names and labels are in the order of
  -- texts in the database, which is total and transitive.
  pub listings_exact :
      (text_before : String → String → Bool) (o : IsOrder text_before)
      (status : Option WorkOrderStatus) (resource_type : Option String) (resource_id : Option Uuid)
      (unread_only : Bool) (limit : ℕ)
      → Lists
          (λ (p : Property). p.organization_id ≡ tenant.organization_id)
          (λ p q. text_before p.name q.name ≡ true)
          db.properties
          (list_properties text_before tenant)
          db
        × Lists
            (λ (u : EstateUnit). u.organization_id ≡ tenant.organization_id)
            (λ u v. text_before u.label v.label ≡ true)
            db.units
            (list_units text_before tenant)
            db
        × Lists
            (λ (t : TenantProfile). t.organization_id ≡ tenant.organization_id)
            (ByNames text_before)
            db.tenant_profiles
            (list_tenants text_before tenant)
            db
        × Lists
            (λ (l : Lease). l.organization_id ≡ tenant.organization_id)
            (λ l m. m.starts_on ≤ l.starts_on)
            db.leases
            (list_leases tenant)
            db
        × Lists
            (AskedOrder tenant status)
            (λ v w. w.created_at ≤ v.created_at)
            db.work_orders
            (list_work_orders tenant status)
            db
        × Lists
            (AskedDocument tenant resource_type resource_id)
            (λ c d. d.created_at ≤ c.created_at)
            db.documents
            (list_documents tenant resource_type resource_id)
            db
        × Pages
            (AskedNotification tenant user unread_only)
            (λ m n. n.created_at ≤ m.created_at)
            limit
            db.notifications
            (list_notifications tenant user unread_only limit)
            db
        × Pages
            (λ (e : AuditLog). e.organization_id ≡ tenant.organization_id)
            (λ e f. f.created_at ≤ e.created_at)
            limit
            db.audit_logs
            (list_audit_logs tenant limit)
            db
  unfolding list_properties list_units list_tenants list_leases list_documents list_audit_logs
  listings_exact text_before o status resource_type resource_id unread_only limit = (
    query-Lists _ _ _ _
        (organization-IsQuery tenant (λ (p : Property). p.organization_id)
          (λ s t. text_before s t ≡ true) text_before (λ p. p.name) o (λ s t h. h))
        db.properties _ db refl,
    query-Lists _ _ _ _
        (organization-IsQuery tenant (λ (u : EstateUnit). u.organization_id)
          (λ s t. text_before s t ≡ true) text_before (λ u. u.label) o (λ s t h. h))
        db.units _ db refl,
    query-Lists _ _ _ _ (names-IsQuery tenant text_before o) db.tenant_profiles _ db refl,
    query-Lists _ _ _ _
        (organization-IsQuery tenant (λ (l : Lease). l.organization_id) (λ m n. n ≤ m)
          (λ m n. leb n m) (λ l. l.starts_on) later-IsOrder later_created)
        db.leases _ db refl,
    orders_listed status,
    query-Lists _ _ _ _ (document-IsQuery tenant resource_type resource_id) db.documents _ db refl,
    notifications_listed unread_only limit,
    query-Pages _ _ _ _
        (organization-IsQuery tenant (λ (e : AuditLog). e.organization_id) (λ m n. n ≤ m)
          (λ m n. leb n m) (λ e. e.created_at) later-IsOrder later_created)
        limit db.audit_logs _ db refl,
  )
