-- ===== src/Maintenance/Creation.antt =====
-- POST /work-orders: what a new work order may refer to, and what it leaves in the database.
use mytenancyplus.Prelude.{
  Bool, Uuid, DateTime, ◌≡◌, refl, Option, none, some, List, [], ◌∷◌, ◌==◌, ◌&&◌,
}
use mytenancyplus.Prelude.Tables.{scalar}
use mytenancyplus.Models.Organization.{User, Membership}
use mytenancyplus.Models.Estate.{Property, EstateUnit}
use mytenancyplus.Models.Maintenance.{WorkOrder}
use mytenancyplus.Transaction.{
  Database, AsyncSession, Action, Result, Exception, request, close_session, begin, err, ok,
  continue,
}
use mytenancyplus.Transaction.Rules.{or_raise_rule}
use mytenancyplus.Tenancy.{TenantContext, admits}
use mytenancyplus.Audit.{AuditEvent, audit_row}
use mytenancyplus.Models.Content.{Notification}
use mytenancyplus.Maintenance.Notices.{CreationTells, notified-CreationTells, IsNew}
use mytenancyplus.Maintenance.Routes.{
  WorkOrderCreate, NewIds, check_unit, check_assignee, new_work_order, create_work_order,
}
use mytenancyplus.Maintenance.Outcome.{notified, notified_rule}

-- The assignee, if there is one, is an active member of the organization.
abbrev pub HasAssignee : Database → Uuid → Option Uuid → Type 0
HasAssignee db organization_id none = Unit
HasAssignee db organization_id (some user_id) =
    (m : Membership) × (scalar (admits organization_id user_id) db.memberships ≡ some m)

-- The query of the unit.
abbrev pub is_unit_of : Uuid → Uuid → Uuid → EstateUnit → Bool
is_unit_of organization_id property_id unit_id u =
    u.id == unit_id && u.property_id == property_id && u.organization_id == organization_id

-- The unit, if there is one, is a unit of the property in the organization.
abbrev pub HasUnit : Database → Uuid → Uuid → Option Uuid → Type 0
HasUnit db organization_id property_id none = Unit
HasUnit db organization_id property_id (some unit_id) =
    (u : EstateUnit) × (scalar (is_unit_of organization_id property_id unit_id) db.units ≡ some u)

abbrev pub is_property_of : Uuid → Uuid → Property → Bool
is_property_of organization_id id p = p.id == id && p.organization_id == organization_id

module _ {A : Type 0} (P : Result A × AsyncSession → Type 0) (s : AsyncSession)
    (refused : (e : Exception) → P (err e, s)) where
  assignee_rule :
      (tenant : TenantContext) (assignee : Option Uuid) (f : Unit {0} → Action A)
      → (HasAssignee s.working tenant.organization_id assignee → P (f tt s))
      → P (continue f (check_assignee tenant assignee s))
  assignee_rule tenant none f passed = passed tt
  assignee_rule tenant (some user_id) f passed =
      or_raise_rule (λ r. P (continue f r))
        (scalar (admits tenant.organization_id user_id) s.working.memberships) _ _ s
        (λ _. refused _) (λ m e. passed (m, e))

  unit_rule :
      (tenant : TenantContext) (property_id : Uuid) (unit : Option Uuid) (f : Unit {0} → Action A)
      → (HasUnit s.working tenant.organization_id property_id unit → P (f tt s))
      → P (continue f (check_unit tenant property_id unit s))
  unit_rule tenant property_id none f passed = passed tt
  unit_rule tenant property_id (some unit_id) f passed =
      or_raise_rule (λ r. P (continue f r))
        (scalar (is_unit_of tenant.organization_id property_id unit_id) s.working.units) _ _ s
        (λ _. refused _) (λ u e. passed (u, e))

module _ (payload : WorkOrderCreate) (ids : NewIds) (now : DateTime) (tenant : TenantContext)
    (user : User) where
  abbrev pub created_event : AuditEvent
  created_event = record {
    organization_id = tenant.organization_id;
    actor_user_id = user.id;
    action = "work_order.created";
    resource_type = "work_order";
    resource_id = ids.row;
    details = [];
  }

  -- The database with the new work order.
  abbrev pub with_work_order : Database → Database
  with_work_order db = record db {
    work_orders = new_work_order payload tenant user ids now ∷ db.work_orders;
    notifications =
        notified tenant ids now (new_work_order payload tenant user ids now) payload.assigned_to_id
          db.notifications;
    audit_logs = audit_row ids.audit now created_event ∷ db.audit_logs;
  }

  -- What a new work order refers to is in the organization.
  pub record Refers (db : Database) : Type 0 where
    pub the_property : Property
    pub property_found :
        scalar (is_property_of tenant.organization_id payload.property_id) db.properties
        ≡ some the_property
    pub unit_found : HasUnit db tenant.organization_id payload.property_id payload.unit_id
    pub assignee_found : HasAssignee db tenant.organization_id payload.assigned_to_id

  pub created_rule :
      (P : Result WorkOrder × Database → Type 0) (db : Database)
      → ((e : Exception) → P (err e, db))
      → (Refers db → P (ok (new_work_order payload tenant user ids now), with_work_order db))
      → P (request (create_work_order payload ids now tenant user) db)
  unfolding create_work_order
  created_rule P db refused accepted =
      or_raise_rule Q
        (scalar (is_property_of tenant.organization_id payload.property_id) db.properties) _ _
        (begin db) (λ _. refused _)
        λ p found.
          unit_rule Q (begin db) refused tenant payload.property_id payload.unit_id _ λ unit.
            assignee_rule Q (begin db) refused tenant payload.assigned_to_id _ λ assignee.
              notified_rule Q tenant ids now (new_work_order payload tenant user ids now)
                payload.assigned_to_id _ _
                (accepted (record {
                  the_property = p;
                  property_found = found;
                  unit_found = unit;
                  assignee_found = assignee;
                }))
    where
      Q : Result WorkOrder × AsyncSession → Type 0
      Q r = P (close_session r)

  -- The row of a new work order, with what it refers to in the organization, and what is written
  -- beside it.
  pub record IsAdded (db : Database) (w : WorkOrder) (after : Database) : Type 0 where
    pub new : IsNew payload ids now tenant user w
    pub the_property : Property
    pub property_found :
        scalar (is_property_of tenant.organization_id w.property_id) db.properties
        ≡ some the_property
    pub unit_found : HasUnit db tenant.organization_id w.property_id w.unit_id
    pub assignee_found : HasAssignee db tenant.organization_id w.assigned_to_id
    pub notifications : List Notification
    pub told : CreationTells tenant ids now w db.notifications w.assigned_to_id notifications
    pub written : after ≡ record db {
      work_orders = w ∷ db.work_orders;
      notifications = notifications;
      audit_logs =
          record {
            id = ids.audit;
            organization_id = tenant.organization_id;
            actor_user_id = user.id;
            action = "work_order.created";
            resource_type = "work_order";
            resource_id = w.id;
            details = [];
            created_at = now;
          }
          ∷ db.audit_logs;
    }

  -- The two ends of POST /work-orders.
  pub data Created (db : Database) : Result WorkOrder × Database → Type 0 where
    refused : (e : Exception) → Created db (err e, db)
    created : (w : WorkOrder) (after : Database) → IsAdded db w after → Created db (ok w, after)

  -- POST /work-orders changes nothing, or adds an open work order with what the payload gives, that
  -- refers to a property, a unit of it and an active member of the organization, with its audit entry
  -- and, for an assignee, a notification.
  pub create_work_order-Created :
      (db : Database) → Created db (request (create_work_order payload ids now tenant user) db)
  create_work_order-Created db = created_rule (Created db) db refused λ r.
      created (new_work_order payload tenant user ids now) (with_work_order db) (record {
        new = record {
          id = refl;
          organization = refl;
          on_property = refl;
          on_unit = refl;
          texts = (refl, refl);
          priority = refl;
          open_status = refl;
          people = (refl, refl);
          moments = (refl, refl, refl, refl);
        };
        the_property = r.the_property;
        property_found = r.property_found;
        unit_found = r.unit_found;
        assignee_found = r.assignee_found;
        notifications = _;
        told =
            notified-CreationTells tenant ids now (new_work_order payload tenant user ids now)
              payload.assigned_to_id db.notifications;
        written = refl;
      })
