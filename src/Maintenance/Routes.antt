-- ===== src/Maintenance/Routes.antt =====
-- app/api/routes/maintenance.py, with the schemas of app/schemas/maintenance.py. A payload is what
-- pydantic lets through. Ids are those that `uuid4` draws, `now` the moment of the request.
use mytenancyplus.Prelude.{
  Uuid, DateTime, String, Bool, ◌&&◌, Option, none, some, [], ◌∷◌, ◌==◌, if◌then◌else◌,
}
use mytenancyplus.Prelude.Tables.{scalar, update_where}
use mytenancyplus.Text.{strip}
use mytenancyplus.Models.Organization.{User}
use mytenancyplus.Models.Maintenance.{
  WorkOrder, WorkOrderComment, WorkOrderPriority, WorkOrderStatus, opened, same_status,
  status_value,
}
use mytenancyplus.Models.Audit.{str}
use mytenancyplus.Transaction.{
  Action, Result, ok, err, http_exception, invalid_work_order_transition, pure, raise, gets,
  or_raise, modify, commit, ◌>>=◌, ◌>>◌,
}
use mytenancyplus.Tenancy.{TenantContext, admits}
use mytenancyplus.Audit.{Notice, record_audit_event, create_notification}
use mytenancyplus.Maintenance.{transition_work_order}

pub record WorkOrderCreate : Type 0 where
  pub property_id : Uuid
  pub unit_id : Option Uuid
  pub title : String
  pub description : String
  pub priority : WorkOrderPriority
  pub assigned_to_id : Option Uuid
  pub due_at : Option DateTime

-- A field outside `model_fields_set` is `none`; `some none` is a null that was sent.
pub record WorkOrderUpdate : Type 0 where
  pub status : Option WorkOrderStatus
  pub priority : Option WorkOrderPriority
  pub assigned_to_id : Option (Option Uuid)
  pub due_at : Option (Option DateTime)

-- The ids that a request draws, one for each row that it may add.
pub record NewIds : Type 0 where
  pub row : Uuid
  pub notification : Uuid
  pub audit : Uuid

-- The query of find_work_order.
abbrev pub is_wanted : Uuid → Uuid → WorkOrder → Bool
is_wanted organization_id id w = w.id == id && w.organization_id == organization_id

unfoldable pub find_work_order : TenantContext → Uuid → Action WorkOrder
find_work_order tenant work_order_id = do
  found ← gets (λ db. scalar (is_wanted tenant.organization_id work_order_id) db.work_orders)
  or_raise found (http_exception 404 "Work order not found")

-- `assignee` is None or an active member.
abbrev pub check_assignee : TenantContext → Option Uuid → Action Unit
check_assignee tenant none = pure tt
check_assignee tenant (some user_id) = do
  or_raise (← gets (λ db. scalar (admits tenant.organization_id user_id) db.memberships))
      (http_exception 400 "Assignee is not an active member")
  pure tt

abbrev pub check_unit : TenantContext → Uuid → Option Uuid → Action Unit
check_unit tenant property_id none = pure tt
check_unit tenant property_id (some unit_id) = do
  or_raise
      (← gets (λ db.
        scalar
          (λ u.
            u.id == unit_id
            && u.property_id == property_id
            && u.organization_id == tenant.organization_id)
          db.units))
      (http_exception 404 "Unit not found in property")
  pure tt

-- The notice that a work order has a new assignee.
abbrev pub assignment : TenantContext → WorkOrder → Uuid → Notice
assignment tenant w user_id = record {
  organization_id = tenant.organization_id;
  recipient_user_id = user_id;
  category = "maintenance";
  title = "Work order assigned";
  body = w.title;
  resource_type = some "work_order";
  resource_id = some w.id;
}

-- create_notification(...) for an assignee.
abbrev pub notify_assignee :
    TenantContext → NewIds → DateTime → WorkOrder → Option Uuid → Action Unit
notify_assignee tenant ids now w none = pure tt
notify_assignee tenant ids now w (some user_id) =
    create_notification ids.notification now (assignment tenant w user_id)

-- WorkOrder(...)
abbrev pub new_work_order : WorkOrderCreate → TenantContext → User → NewIds → DateTime → WorkOrder
new_work_order payload tenant user ids now = record {
  id = ids.row;
  organization_id = tenant.organization_id;
  property_id = payload.property_id;
  unit_id = payload.unit_id;
  title = strip payload.title;
  description = strip payload.description;
  priority = payload.priority;
  status = opened;
  reported_by_id = user.id;
  assigned_to_id = payload.assigned_to_id;
  due_at = payload.due_at;
  resolved_at = none;
  closed_at = none;
  created_at = now;
}

unfoldable pub create_work_order :
    WorkOrderCreate → NewIds → DateTime → TenantContext → User → Action WorkOrder
create_work_order payload ids now tenant user = do
  or_raise
      (← gets (λ db.
        scalar (λ p. p.id == payload.property_id && p.organization_id == tenant.organization_id)
          db.properties))
      (http_exception 404 "Property not found")
  check_unit tenant payload.property_id payload.unit_id
  check_assignee tenant payload.assigned_to_id
  let work_order = new_work_order payload tenant user ids now
  modify (λ db. record db { work_orders = work_order ∷ db.work_orders })
  notify_assignee tenant ids now work_order payload.assigned_to_id
  record_audit_event ids.audit now (record {
    organization_id = tenant.organization_id;
    actor_user_id = user.id;
    action = "work_order.created";
    resource_type = "work_order";
    resource_id = work_order.id;
    details = [];
  })
  commit
  pure work_order

-- The write of the changed object to its row.
abbrev pub save : WorkOrder → Action Unit
save w =
    modify
      (λ db. record db { work_orders = update_where (λ x. x.id == w.id) (λ _. w) db.work_orders })

-- except InvalidWorkOrderTransition as exc: 409, with its text
abbrev pub or_conflict : Result WorkOrder → Action WorkOrder
or_conflict (ok w) = pure w
or_conflict (err (invalid_work_order_transition message)) = raise (http_exception 409 message)
or_conflict (err e) = raise e

-- `if payload.status is not None and payload.status != work_order.status`, with its `except`.
abbrev pub change_status : Option WorkOrderStatus → WorkOrder → DateTime → Action WorkOrder
change_status none w now = pure w
change_status (some target) w now =
    if same_status target w.status then pure w else or_conflict (transition_work_order w target now)

abbrev pub set_priority : Option WorkOrderPriority → WorkOrder → WorkOrder
set_priority none w = w
set_priority (some priority) w = record w { priority = priority }

-- `if "assigned_to_id" in payload.model_fields_set`: the check, then the assignment.
abbrev pub check_new_assignee : TenantContext → Option (Option Uuid) → Action Unit
check_new_assignee tenant none = pure tt
check_new_assignee tenant (some assignee) = check_assignee tenant assignee

abbrev pub set_assignee : Option (Option Uuid) → WorkOrder → WorkOrder
set_assignee none w = w
set_assignee (some assignee) w = record w { assigned_to_id = assignee }

abbrev pub set_due_at : Option (Option DateTime) → WorkOrder → WorkOrder
set_due_at none w = w
set_due_at (some due_at) w = record w { due_at = due_at }

-- payload.assigned_to_id is not None and payload.assigned_to_id != user.id
abbrev pub new_recipient : User → Option (Option Uuid) → Option Uuid
new_recipient user (some (some assignee)) = if assignee == user.id then none else some assignee
new_recipient user _ = none

unfoldable pub update_work_order :
    Uuid → WorkOrderUpdate → NewIds → DateTime → TenantContext → User → Action WorkOrder
update_work_order work_order_id payload ids now tenant user = do
  work_order ← find_work_order tenant work_order_id
  moved ← change_status payload.status work_order now
  let prioritised = set_priority payload.priority moved
  save prioritised
  check_new_assignee tenant payload.assigned_to_id
  let updated = set_due_at payload.due_at (set_assignee payload.assigned_to_id prioritised)
  save updated
  record_audit_event ids.audit now (record {
    organization_id = tenant.organization_id;
    actor_user_id = user.id;
    action = "work_order.updated";
    resource_type = "work_order";
    resource_id = updated.id;
    details = ("status", str (status_value updated.status)) ∷ [];
  })
  notify_assignee tenant ids now updated (new_recipient user payload.assigned_to_id)
  commit
  pure updated

unfoldable pub add_work_order_comment :
    Uuid → String → Uuid → DateTime → TenantContext → User → Action WorkOrderComment
unfolding find_work_order
add_work_order_comment work_order_id body id now tenant user = do
  find_work_order tenant work_order_id
  let comment : WorkOrderComment = record {
    id = id;
    organization_id = tenant.organization_id;
    work_order_id = work_order_id;
    author_user_id = user.id;
    body = strip body;
    created_at = now;
  }
  modify (λ db. record db { work_order_comments = comment ∷ db.work_order_comments })
  commit
  pure comment
