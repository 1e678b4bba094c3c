-- ===== src/Maintenance.antt =====
-- app/services/maintenance.py: the state machine of a work order. The routes that drive it are in
-- Maintenance/Routes.antt.
pub mod Lifecycle
pub mod Routes
pub mod Outcome
pub mod Notices
pub mod Rows
pub mod Updates
pub mod Creation
pub mod Listing
pub mod Examples
use Prim.Native.String.{◌++◌}
use mytenancyplus.Prelude.{
  DateTime, String, Bool, true, false, ◌||◌, not, none, some, List, [], ◌∷◌, if◌then◌else◌,
}
use mytenancyplus.Models.Maintenance.{
  WorkOrder, WorkOrderStatus, opened, triaged, in_progress, resolved, closed, cancelled,
  same_status, status_value,
}
use mytenancyplus.Transaction.{Result, ok, err, invalid_work_order_transition}

-- ALLOWED_TRANSITIONS[status]
unfoldable pub allowed_transitions : WorkOrderStatus → List WorkOrderStatus
allowed_transitions opened = triaged ∷ cancelled ∷ []
allowed_transitions triaged = in_progress ∷ cancelled ∷ []
allowed_transitions in_progress = resolved ∷ cancelled ∷ []
allowed_transitions resolved = closed ∷ in_progress ∷ []
allowed_transitions closed = []
allowed_transitions cancelled = []

-- target in statuses
abbrev pub contains : WorkOrderStatus → List WorkOrderStatus → Bool
contains target [] = false
contains target (s ∷ rest) = same_status target s || contains target rest

-- The assignments below the test, by the new status.
enter : WorkOrderStatus → DateTime → WorkOrder → WorkOrder
enter resolved now work_order = record work_order { status = resolved; resolved_at = some now }
enter in_progress now work_order = record work_order { status = in_progress; resolved_at = none }
enter closed now work_order = record work_order { status = closed; closed_at = some now }
enter cancelled now work_order = record work_order { status = cancelled; closed_at = some now }
enter opened now work_order = record work_order { status = opened }
enter triaged now work_order = record work_order { status = triaged }

-- The changed work order, or the exception, before which nothing was written.
unfoldable pub transition_work_order : WorkOrder → WorkOrderStatus → DateTime → Result WorkOrder
unfolding allowed_transitions enter
transition_work_order work_order target now =
    if not (contains target (allowed_transitions work_order.status))
    then err (
        invalid_work_order_transition (
          "Cannot move a work order from "
          ++ (status_value work_order.status ++ (" to " ++ status_value target))))
    else ok (enter target now work_order)
