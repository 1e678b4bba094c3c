-- ===== src/Isolation.antt =====
-- The tenants of app/api/routes beside each other: what an organization can see of the database, the
-- requests of its members that read, and those that write. It models no code of its own: each
-- request is a handler of another module.
pub mod Rows
pub mod Answers
pub mod Changes
pub mod Contents
pub mod Invitations
pub mod Runs
pub mod Links
pub mod Linked
pub mod Examples
use mytenancyplus.Prelude.{ℕ, Uuid, DateTime, Date, String, Bool, ◌==◌, ◌≢◌, Option, List}
use mytenancyplus.Prelude.Tables.{All, select}
use mytenancyplus.Prelude.Keys.{IsKey}
use mytenancyplus.Models.Organization.{User, MembershipRole}
use mytenancyplus.Models.Estate.{Property, EstateUnit}
use mytenancyplus.Models.Lease.{Lease, TenantProfile}
use mytenancyplus.Models.Maintenance.{WorkOrder, WorkOrderComment, WorkOrderStatus}
use mytenancyplus.Models.Billing.{Subscription}
use mytenancyplus.Models.Audit.{AuditLog}
use mytenancyplus.Models.Content.{Document, Notification}
use mytenancyplus.Transaction.{Database, Action, Exception, request}
use mytenancyplus.Config.{Settings}
use mytenancyplus.Tenancy.{TenantContext}
use mytenancyplus.Properties.{
  PropertyCreate, UnitCreate, create_property, create_unit, list_properties, list_units,
}
use mytenancyplus.Leases.{LeaseCreate, TenantCreate, create_lease, create_tenant}
use mytenancyplus.Leases.Listing.{list_tenants, list_leases}
use mytenancyplus.Maintenance.Routes.{
  WorkOrderCreate, WorkOrderUpdate, NewIds, create_work_order, update_work_order,
  add_work_order_comment,
}
use mytenancyplus.Maintenance.Listing.{list_work_orders, list_work_order_comments}
use mytenancyplus.Billing.Listing.{read_subscription}
use mytenancyplus.Notifications.{
  list_notifications, unread_notification_count, mark_notification_read, list_audit_logs,
}
use mytenancyplus.Dashboard.{DashboardSummary, dashboard_summary}
use mytenancyplus.Security.Claims.{Jwt, Rendering}
use mytenancyplus.Organizations.{InvitationDraw, invite_member}
use mytenancyplus.Organizations.Listing.{MembershipDetailResponse, list_members}
use mytenancyplus.Storage.Paths.{Name, FilePath}
use mytenancyplus.Storage.{Files}
use mytenancyplus.Documents.{UploadForm, upload_document, find_document}
use mytenancyplus.Documents.Deletion.{delete_document}
use mytenancyplus.Documents.Listing.{list_documents}

-- The database with, of every table of the tenants, only the rows of one organization.
abbrev pub view : Uuid → Database → Database
view o db = record db {
  memberships = select (λ m. m.organization_id == o) db.memberships;
  invitations = select (λ i. i.organization_id == o) db.invitations;
  properties = select (λ p. p.organization_id == o) db.properties;
  units = select (λ u. u.organization_id == o) db.units;
  tenant_profiles = select (λ t. t.organization_id == o) db.tenant_profiles;
  leases = select (λ l. l.organization_id == o) db.leases;
  work_orders = select (λ w. w.organization_id == o) db.work_orders;
  work_order_comments = select (λ c. c.organization_id == o) db.work_order_comments;
  subscriptions = select (λ s. s.organization_id == o) db.subscriptions;
  audit_logs = select (λ e. e.organization_id == o) db.audit_logs;
  outbox_events = select (λ e. e.organization_id == o) db.outbox_events;
  documents = select (λ d. d.organization_id == o) db.documents;
  notifications = select (λ n. n.organization_id == o) db.notifications;
}

-- The requests of a member that only read.
pub data Reads (tenant : TenantContext) (user : User) : (A : Type 0) → Action A → Type 1 where
  properties_listed :
      (text_before : String → String → Bool)
      → Reads tenant user (List Property) (list_properties text_before tenant)
  units_listed :
      (text_before : String → String → Bool)
      → Reads tenant user (List EstateUnit) (list_units text_before tenant)
  tenants_listed :
      (text_before : String → String → Bool)
      → Reads tenant user (List TenantProfile) (list_tenants text_before tenant)
  leases_listed : Reads tenant user (List Lease) (list_leases tenant)
  work_orders_listed :
      (status : Option WorkOrderStatus)
      → Reads tenant user (List WorkOrder) (list_work_orders tenant status)
  comments_listed :
      (id : Uuid) → Reads tenant user (List WorkOrderComment) (list_work_order_comments id tenant)
  subscription_read : Reads tenant user (Option Subscription) (read_subscription tenant)
  notifications_listed :
      (unread_only : Bool) (limit : ℕ)
      → Reads tenant user (List Notification) (list_notifications tenant user unread_only limit)
  unread_counted : Reads tenant user ℕ (unread_notification_count tenant user)
  audit_logs_listed : (limit : ℕ) → Reads tenant user (List AuditLog) (list_audit_logs tenant limit)
  dashboard_shown : Reads tenant user DashboardSummary (dashboard_summary tenant user)
  documents_listed :
      (resource_type : Option String) (resource_id : Option Uuid)
      → Reads tenant user (List Document) (list_documents tenant resource_type resource_id)
  members_listed :
      (text_before : String → String → Bool)
      → Reads tenant user (List MembershipDetailResponse) (list_members text_before tenant)
  document_found : (id : Uuid) → Reads tenant user Document (find_document tenant id)

-- The primary keys by which a write finds its row again.
pub record AreKeyed (work_orders : List WorkOrder) (notifications : List Notification)
    (documents : List Document) : Type 0 where
  pub order_key : IsKey (λ w. w.id) work_orders
  pub notification_key : IsKey (λ n. n.id) notifications
  pub document_key : IsKey (λ d. d.id) documents

abbrev pub HasKeys : Database → Type 0
HasKeys db = AreKeyed db.work_orders db.notifications db.documents

-- One request of a member that writes, from the database that it finds to the one that it leaves.
-- The ids that it draws are new.
pub data Writes (tenant : TenantContext) (user : User) (db : Database) : Database → Type 1 where
  property_created :
      (upper : String → String) (payload : PropertyCreate) (id audit_id : Uuid) (now : DateTime)
      → Writes tenant user db
          (request (create_property upper payload id audit_id now tenant user) db).1
  unit_created :
      (upper : String → String) (payload : UnitCreate) (id : Uuid)
      → Writes tenant user db (request (create_unit upper payload id tenant) db).1
  tenant_created :
      (lower : String → String) (payload : TenantCreate) (id : Uuid)
      → Writes tenant user db (request (create_tenant lower payload id tenant) db).1
  lease_created :
      (payload : LeaseCreate) (id audit_id : Uuid) (now : DateTime)
      → Writes tenant user db (request (create_lease payload id audit_id now tenant user) db).1
  work_order_created :
      (payload : WorkOrderCreate) (ids : NewIds) (now : DateTime)
      → All (λ w. w.id ≢ ids.row) db.work_orders
      → All (λ n. n.id ≢ ids.notification) db.notifications
      → Writes tenant user db (request (create_work_order payload ids now tenant user) db).1
  work_order_updated :
      (id : Uuid) (payload : WorkOrderUpdate) (ids : NewIds) (now : DateTime)
      → All (λ n. n.id ≢ ids.notification) db.notifications
      → Writes tenant user db (request (update_work_order id payload ids now tenant user) db).1
  member_invited :
      {Token : Type 0} (runtime : Rendering) (jwt : Jwt Token) (lower hash : String → String)
      (isoformat : DateTime → String) (email : String) (role : MembershipRole) (settings : Settings)
      (draw : InvitationDraw) (now : DateTime)
      → Writes tenant user db
          (request
            (invite_member runtime jwt lower hash isoformat email role settings draw now tenant
              user)
            db).1
  comment_added :
      (work_order_id : Uuid) (body : String) (id : Uuid) (now : DateTime)
      → Writes tenant user db
          (request (add_work_order_comment work_order_id body id now tenant user) db).1
  notification_read :
      (id : Uuid) (now : DateTime)
      → Writes tenant user db (request (mark_notification_read id now tenant user) db).1
  document_uploaded :
      (show_uuid : Uuid → Name) (sha256 : List ℕ → String) (as_text : Name → String)
      (too_large : ℕ → String) (root : FilePath) (settings : Settings) (form : UploadForm)
      (id audit_id : Uuid) (now : DateTime) (failure : Option Exception) (files : Files)
      → All (λ d. d.id ≢ id) db.documents
      → Writes tenant user db
          (upload_document show_uuid sha256 as_text too_large root settings form id audit_id now
            tenant user failure
            (db, files)).1.0
  document_deleted :
      (root : FilePath) (id audit_id : Uuid) (now : DateTime) (failure : Option Exception)
      (files : Files)
      → Writes tenant user db
          (delete_document root id audit_id now tenant user failure (db, files)).1.0

-- Requests of members of other organizations, one after the other.
pub data OtherWrites (o : Uuid) : Database → Database → Type 1 where
  done : {db : Database} → OtherWrites o db db
  next :
      {db middle after : Database} (tenant : TenantContext) (user : User)
      → tenant.organization_id ≢ o
      → Writes tenant user db middle
      → OtherWrites o middle after
      → OtherWrites o db after
