-- ===== src/Maintenance/Notices.antt =====
-- What requests on a work order, in app/api/routes/maintenance.py, are to tell its assignee, and what
-- they are to make of its row.
use mytenancyplus.Prelude.{
  Uuid, DateTime, ◌≡◌, ◌≢◌, Bool-cases, inl, inr, arith, Option, none, some, List, ◌∷◌, ◌==◌,
  ==_iff,
}
use mytenancyplus.Text.{strip}
use mytenancyplus.Models.Organization.{User}
use mytenancyplus.Models.Maintenance.{WorkOrder, opened}
use mytenancyplus.Models.Content.{Notification}
use mytenancyplus.Tenancy.{TenantContext}
use mytenancyplus.Maintenance.Routes.{WorkOrderCreate, WorkOrderUpdate, NewIds, new_recipient}
use mytenancyplus.Maintenance.Outcome.{given, notified}

module _ (tenant : TenantContext) (ids : NewIds) (now : DateTime) where
  -- The notification of an assignee.
  abbrev pub notice_for : WorkOrder → Uuid → Notification
  notice_for w assignee = record {
    id = ids.notification;
    organization_id = tenant.organization_id;
    recipient_user_id = assignee;
    category = "maintenance";
    title = "Work order assigned";
    body = w.title;
    resource_type = some "work_order";
    resource_id = some w.id;
    read_at = none;
    created_at = now;
  }

  -- A new work order tells its assignee, if it has one.
  pub data CreationTells (w : WorkOrder) (rows : List Notification)
      : Option Uuid → List Notification → Type 0 where
    nobody : CreationTells w rows none rows
    assignee : (a : Uuid) → CreationTells w rows (some a) (notice_for w a ∷ rows)

  -- A change tells the assignee that it names, unless that is the user who makes it.
  pub data ChangeTells (user : User) (w : WorkOrder) (rows : List Notification)
      : Option (Option Uuid) → List Notification → Type 0 where
    unchanged : ChangeTells user w rows none rows
    cleared : ChangeTells user w rows (some none) rows
    self : (a : Uuid) → a ≡ user.id → ChangeTells user w rows (some (some a)) rows
    other :
        (a : Uuid) → a ≢ user.id → ChangeTells user w rows (some (some a)) (notice_for w a ∷ rows)

  pub notified-CreationTells :
      (w : WorkOrder) (o : Option Uuid) (rows : List Notification)
      → CreationTells w rows o (notified tenant ids now w o rows)
  notified-CreationTells w none rows = nobody
  notified-CreationTells w (some a) rows = assignee a

  pub notified-ChangeTells :
      (user : User) (w : WorkOrder) (o : Option (Option Uuid)) (rows : List Notification)
      → ChangeTells user w rows o (notified tenant ids now w (new_recipient user o) rows)
  notified-ChangeTells user w none rows = unchanged
  notified-ChangeTells user w (some none) rows = cleared
  notified-ChangeTells user w (some (some a)) rows = elim (Bool-cases (a == user.id)) [
    | inl e ↦ rw e (self a ((==_iff a user.id).0 e))
    | inr e ↦ rw e (other a (λ same. ground arith))
  ]

-- The row of a new work order.
pub record IsNew (payload : WorkOrderCreate) (ids : NewIds) (now : DateTime)
    (tenant : TenantContext) (user : User) (w : WorkOrder) : Type 0 where
  pub id : w.id ≡ ids.row
  pub organization : w.organization_id ≡ tenant.organization_id
  pub on_property : w.property_id ≡ payload.property_id
  pub on_unit : w.unit_id ≡ payload.unit_id
  pub texts : (w.title ≡ strip payload.title) × (w.description ≡ strip payload.description)
  pub priority : w.priority ≡ payload.priority
  pub open_status : w.status ≡ opened
  pub people : (w.reported_by_id ≡ user.id) × (w.assigned_to_id ≡ payload.assigned_to_id)
  pub moments :
      (w.due_at ≡ payload.due_at)
      × (w.resolved_at ≡ none)
      × (w.closed_at ≡ none)
      × (w.created_at ≡ now)

-- The row of a changed one: what the payload gives, and all else as it was but for the time stamps of
-- its status.
pub record IsChanged (payload : WorkOrderUpdate) (w w' : WorkOrder) : Type 0 where
  pub status : w'.status ≡ given payload.status w.status
  pub priority : w'.priority ≡ given payload.priority w.priority
  pub assigned : w'.assigned_to_id ≡ given payload.assigned_to_id w.assigned_to_id
  pub due : w'.due_at ≡ given payload.due_at w.due_at
  pub same_identity : (w'.id ≡ w.id) × (w'.organization_id ≡ w.organization_id)
  pub same_place : (w'.property_id ≡ w.property_id) × (w'.unit_id ≡ w.unit_id)
  pub same_texts : (w'.title ≡ w.title) × (w'.description ≡ w.description)
  pub same_origin : (w'.reported_by_id ≡ w.reported_by_id) × (w'.created_at ≡ w.created_at)
