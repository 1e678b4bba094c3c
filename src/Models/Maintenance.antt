-- ===== src/Models/Maintenance.antt =====
-- app/models/maintenance.py. `opened` is the source's `OPEN`, which is a reserved word here.
use mytenancyplus.Prelude.{Uuid, DateTime, String, Bool, true, false, Option}

pub data WorkOrderPriority : Type 0 where
  low normal high urgent : WorkOrderPriority

pub data WorkOrderStatus : Type 0 where
  opened triaged in_progress resolved closed cancelled : WorkOrderStatus

-- The test `==` of two statuses.
abbrev pub same_status : WorkOrderStatus → WorkOrderStatus → Bool
same_status opened opened = true
same_status triaged triaged = true
same_status in_progress in_progress = true
same_status resolved resolved = true
same_status closed closed = true
same_status cancelled cancelled = true
same_status _ _ = false

-- WorkOrderStatus.value
abbrev pub status_value : WorkOrderStatus → String
status_value opened = "open"
status_value triaged = "triaged"
status_value in_progress = "in_progress"
status_value resolved = "resolved"
status_value closed = "closed"
status_value cancelled = "cancelled"

pub record WorkOrder : Type 0 where
  pub id : Uuid
  pub organization_id : Uuid
  pub property_id : Uuid
  pub unit_id : Option Uuid
  pub title : String
  pub description : String
  pub priority : WorkOrderPriority
  pub status : WorkOrderStatus
  pub reported_by_id : Uuid
  pub assigned_to_id : Option Uuid
  pub due_at : Option DateTime
  pub resolved_at : Option DateTime
  pub closed_at : Option DateTime
  pub created_at : DateTime

pub record WorkOrderComment : Type 0 where
  pub id : Uuid
  pub organization_id : Uuid
  pub work_order_id : Uuid
  pub author_user_id : Uuid
  pub body : String
  pub created_at : DateTime
