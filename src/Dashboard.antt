-- ===== src/Dashboard.antt =====
-- app/api/routes/dashboard.py: the counts of an organization, and its subscription.
pub mod Counts
pub mod Examples
use mytenancyplus.Prelude.{
  ℕ, Uuid, String, Bool, true, false, not, ◌&&◌, ◌==◌, Option, none, some, List, ◌∷◌,
}
use mytenancyplus.Prelude.Tables.{scalar, count_where}
use mytenancyplus.Models.Organization.{User}
use mytenancyplus.Models.Estate.{Property, EstateUnit}
use mytenancyplus.Models.Lease.{Lease, is_active}
use mytenancyplus.Models.Maintenance.{WorkOrder, WorkOrderStatus, closed, cancelled}
use mytenancyplus.Models.Billing.{Subscription, plan_value, status_value, starter, trialing}
use mytenancyplus.Transaction.{Database, Action, pure, gets, ◌>>=◌}
use mytenancyplus.Tenancy.{TenantContext}
use mytenancyplus.Notifications.{is_received, is_unread}

pub record DashboardSummary : Type 0 where
  pub properties : ℕ
  pub units : ℕ
  pub active_leases : ℕ
  pub open_work_orders : ℕ
  pub unread_notifications : ℕ
  pub subscription_plan : String
  pub subscription_status : String

-- notin_([CLOSED, CANCELLED])
abbrev pub is_open : WorkOrderStatus → Bool
is_open closed = false
is_open cancelled = false
is_open _ = true

-- A member of an enumeration that is a text is its value.
abbrev pub plan_of : Option Subscription → String
plan_of none = plan_value starter
plan_of (some s) = plan_value s.plan

abbrev pub status_of : Option Subscription → String
status_of none = status_value trialing
status_of (some s) = status_value s.status

-- count_for(session, Model, criteria...)
abbrev pub count_for : {A : Type 0} → (Database → List A) → (A → Bool) → Action ℕ
count_for table criteria = gets (λ db. count_where criteria (table db))

unfoldable pub dashboard_summary : TenantContext → User → Action DashboardSummary
dashboard_summary tenant user = do
  properties ← count_for (λ db. db.properties) (λ p. p.organization_id == tenant.organization_id)
  units ← count_for (λ db. db.units) (λ u. u.organization_id == tenant.organization_id)
  active_leases ←
      count_for (λ db. db.leases)
        (λ l. l.organization_id == tenant.organization_id && is_active l.status)
  open_work_orders ←
      count_for (λ db. db.work_orders)
        (λ w. w.organization_id == tenant.organization_id && is_open w.status)
  unread_notifications ←
      count_for (λ db. db.notifications) (λ n. is_received tenant user n && is_unread n)
  subscription ←
      gets (λ db. scalar (λ s. s.organization_id == tenant.organization_id) db.subscriptions)
  pure (record {
    properties = properties;
    units = units;
    active_leases = active_leases;
    open_work_orders = open_work_orders;
    unread_notifications = unread_notifications;
    subscription_plan = plan_of subscription;
    subscription_status = status_of subscription;
  })
