-- ===== src/Schema/Orders.antt =====
-- The rows of work orders and their comments, in the columns of their tables.
use Prim.Native.String.{count}
use mytenancyplus.Prelude.{
  Uuid, DateTime, String, Bool, true, ◌≡◌, ◌∙◌, refl, ap, leb, Option, none, some, arith, List, [],
  ◌∷◌, ◌==◌, sym,
}
use mytenancyplus.Prelude.Tables.{All, All-Has, All-update_where, scalar_passes}
use mytenancyplus.Text.Counts.{count-strip}
use mytenancyplus.Models.Organization.{User}
use mytenancyplus.Models.Maintenance.{
  WorkOrderPriority, low, normal, high, urgent, WorkOrderStatus, opened, triaged, in_progress,
  resolved, closed, cancelled, WorkOrder,
}
use mytenancyplus.Transaction.{Database, request}
use mytenancyplus.Tenancy.{TenantContext}
use mytenancyplus.Maintenance.Routes.{
  WorkOrderCreate, WorkOrderUpdate, NewIds, set_priority, new_work_order, create_work_order,
  update_work_order,
}
use mytenancyplus.Maintenance.Creation.{created_rule}
use mytenancyplus.Maintenance.{transition_work_order}
use mytenancyplus.Maintenance.Outcome.{Moved, stayed, went, updated_row, saved, update_rule}
use mytenancyplus.Requests.{validates_work_order}
use mytenancyplus.Schema.{ColumnType, uuid, datetime, enum, optional}
use mytenancyplus.Schema.Product.{work_orders_columns}
use mytenancyplus.Schema.Rows.{
  Row, Value, identifier, characters, moment, member, or_null, fits, takes, takes_value,
}

-- The names by which SQLAlchemy stores the members.
abbrev pub priority_name : WorkOrderPriority → String
priority_name low = "LOW"
priority_name normal = "NORMAL"
priority_name high = "HIGH"
priority_name urgent = "URGENT"

abbrev pub order_status_name : WorkOrderStatus → String
order_status_name opened = "OPEN"
order_status_name triaged = "TRIAGED"
order_status_name in_progress = "IN_PROGRESS"
order_status_name resolved = "RESOLVED"
order_status_name closed = "CLOSED"
order_status_name cancelled = "CANCELLED"

abbrev pub order_row : WorkOrder → Row
order_row w =
    ("id", identifier w.id)
    ∷ ("organization_id", identifier w.organization_id)
    ∷ ("property_id", identifier w.property_id)
    ∷ ("unit_id", or_null identifier w.unit_id)
    ∷ ("title", characters w.title)
    ∷ ("description", characters w.description)
    ∷ ("priority", member (priority_name w.priority))
    ∷ ("status", member (order_status_name w.status))
    ∷ ("reported_by_id", identifier w.reported_by_id)
    ∷ ("assigned_to_id", or_null identifier w.assigned_to_id)
    ∷ ("due_at", or_null moment w.due_at)
    ∷ ("resolved_at", or_null moment w.resolved_at)
    ∷ ("closed_at", or_null moment w.closed_at)
    ∷ []

abbrev pub order_fits : WorkOrder → Bool
order_fits w = fits work_orders_columns (order_row w)

-- A nullable column takes a null and a value of its type.
nullable_takes :
    {A : Type 0} (name : String) (type : ColumnType) (f : A → Value) (o : Option A)
    → ((a : A) → takes_value (optional name type) (f a) ≡ true)
    → takes_value (optional name type) (or_null f o) ≡ true
nullable_takes name type f none h = refl
nullable_takes name type f (some a) h = h a

priority_taken :
    (p : WorkOrderPriority)
    → takes
        (enum "workorderpriority" ("LOW" ∷ "NORMAL" ∷ "HIGH" ∷ "URGENT" ∷ []))
        (member (priority_name p))
      ≡ true
priority_taken low = refl
priority_taken normal = refl
priority_taken high = refl
priority_taken urgent = refl

status_taken :
    (s : WorkOrderStatus)
    → takes
        (enum "workorderstatus"
          ("OPEN" ∷ "TRIAGED" ∷ "IN_PROGRESS" ∷ "RESOLVED" ∷ "CLOSED" ∷ "CANCELLED" ∷ []))
        (member (order_status_name s))
      ≡ true
status_taken opened = refl
status_taken triaged = refl
status_taken in_progress = refl
status_taken resolved = refl
status_taken closed = refl
status_taken cancelled = refl

-- Nothing but the length of its title can keep a work order out of its columns.
order_fits_lem : (w : WorkOrder) → order_fits w ≡ leb (count w.title) 180
order_fits_lem w =
    rw
      (
        nullable_takes "unit_id" uuid identifier w.unit_id (λ _. refl),
        priority_taken w.priority,
        status_taken w.status,
        nullable_takes "assigned_to_id" uuid identifier w.assigned_to_id (λ _. refl),
        nullable_takes "due_at" datetime moment w.due_at (λ _. refl),
        nullable_takes "resolved_at" datetime moment w.resolved_at (λ _. refl),
        nullable_takes "closed_at" datetime moment w.closed_at (λ _. refl),
      )
      (ground arith)

title_kept :
    (payload : WorkOrderUpdate) (w moved : WorkOrder) (now : DateTime)
    → Moved w now moved
    → ((updated_row payload moved).title ≡ w.title)
      × ((set_priority payload.priority moved).title ≡ w.title)
unfolding transition_work_order
title_kept payload w moved now stayed = ground arith
title_kept payload w moved now (went target e) = ground arith

still_fits : (w w' : WorkOrder) → w'.title ≡ w.title → order_fits w ≡ true → order_fits w' ≡ true
still_fits w w' e h =
    order_fits_lem w' ∙ (ap (λ t. leb (count t) 180) e ∙ (sym (order_fits_lem w) ∙ h))

saved_fits :
    (w : WorkOrder) (rows : List WorkOrder)
    → order_fits w ≡ true
    → All (λ v. order_fits v ≡ true) rows
    → All (λ v. order_fits v ≡ true) (saved w rows)
saved_fits w rows e h =
    All-update_where (λ v. order_fits v ≡ true) (λ x. x.id == w.id) (λ _. w) rows (λ _ _ _. e) h

module _ (ids : NewIds) (now : DateTime) (tenant : TenantContext) (user : User) (db : Database)
    (h : All (λ w. order_fits w ≡ true) db.work_orders) where
  pub update-fits :
      (id : Uuid) (payload : WorkOrderUpdate)
      → All
          (λ w. order_fits w ≡ true)
          (request (update_work_order id payload ids now tenant user) db).1.work_orders
  update-fits id payload =
      update_rule id payload ids now tenant user
        (λ r. All (λ w. order_fits w ≡ true) r.1.work_orders) db (λ _. h)
        λ w moved found m.
          let (row, prior) = title_kept payload w moved now m in
          let old =
            All-Has (λ v. order_fits v ≡ true) db.work_orders h
              (scalar_passes _ db.work_orders found).1 in
          saved_fits (updated_row payload moved) _
            (still_fits w (updated_row payload moved) row old)
            (saved_fits (set_priority payload.priority moved) db.work_orders
              (still_fits w (set_priority payload.priority moved) prior old) h)

  pub create-fits :
      (payload : WorkOrderCreate)
      → validates_work_order payload ≡ true
      → All
          (λ w. order_fits w ≡ true)
          (request (create_work_order payload ids now tenant user) db).1.work_orders
  create-fits payload valid =
      created_rule payload ids now tenant user (λ r. All (λ w. order_fits w ≡ true) r.1.work_orders)
        db (λ _. h)
        λ _. (
          order_fits_lem (new_work_order payload tenant user ids now)
              ∙ ground (arith, count-strip payload.title),
          h,
        )
