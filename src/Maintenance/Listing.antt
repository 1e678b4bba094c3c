-- ===== src/Maintenance/Listing.antt =====
-- The listings of app/api/routes/maintenance.py.
use mytenancyplus.Prelude.{Uuid, Bool, ◌&&◌, ◌==◌, leb, Option, none, some, List}
use mytenancyplus.Prelude.Tables.{select}
use mytenancyplus.Prelude.Order.{order_by}
use mytenancyplus.Models.Maintenance.{WorkOrder, WorkOrderComment, WorkOrderStatus, same_status}
use mytenancyplus.Transaction.{Database, Action, gets, ◌>>◌}
use mytenancyplus.Tenancy.{TenantContext}
use mytenancyplus.Maintenance.Routes.{find_work_order}

-- The query, with the status if one is asked for.
abbrev pub with_status : TenantContext → Option WorkOrderStatus → Database → List WorkOrder
with_status tenant none db =
    select (λ w. w.organization_id == tenant.organization_id) db.work_orders
with_status tenant (some status) db =
    select (λ w. w.organization_id == tenant.organization_id && same_status w.status status)
      db.work_orders

-- created_at.desc()
abbrev pub newest_first : WorkOrder → WorkOrder → Bool
newest_first v w = leb w.created_at v.created_at

unfoldable pub list_work_orders : TenantContext → Option WorkOrderStatus → Action (List WorkOrder)
list_work_orders tenant status = gets (λ db. order_by newest_first (with_status tenant status db))

abbrev pub oldest_first : WorkOrderComment → WorkOrderComment → Bool
oldest_first c d = leb c.created_at d.created_at

-- The comments on a work order.
abbrev pub is_comment_on : TenantContext → Uuid → WorkOrderComment → Bool
is_comment_on tenant id c = c.work_order_id == id && c.organization_id == tenant.organization_id

unfoldable pub list_work_order_comments : Uuid → TenantContext → Action (List WorkOrderComment)
unfolding find_work_order
list_work_order_comments id tenant =
    find_work_order tenant id
    >> gets (λ db. order_by oldest_first (select (is_comment_on tenant id) db.work_order_comments))
