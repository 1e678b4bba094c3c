-- ===== src/Dashboard/Examples.antt =====
-- The dashboard of an organization with one property and two work orders, of which one is open.
use mytenancyplus.Prelude.{ℕ, String, Bool, refl, true, none, arith, [], ◌∷◌}
use mytenancyplus.Prelude.Order.{order_by}
use mytenancyplus.Models.Organization.{User, owner}
use mytenancyplus.Models.Estate.{Property}
use mytenancyplus.Models.Maintenance.{WorkOrder, WorkOrderStatus, opened, closed, normal}
use mytenancyplus.Transaction.{Database, empty}
use mytenancyplus.Tenancy.{TenantContext}
use mytenancyplus.Properties.{list_properties, list_units}
use mytenancyplus.Leases.Listing.{list_leases}
use mytenancyplus.Maintenance.Listing.{list_work_orders}
use mytenancyplus.Notifications.{list_notifications}
use mytenancyplus.Dashboard.{DashboardSummary, dashboard_summary}
use mytenancyplus.Dashboard.Counts.{Agrees, summary-listings}

abbrev user : User
user = record { id = 7; email = "a@b.c"; full_name = "A"; password_hash = "h"; is_active = true }

abbrev tenant : TenantContext
tenant = record { organization_id = 1; user_id = 7; role = owner }

-- A property of the organization, and one of another.
abbrev house : ℕ → ℕ → Property
house id organization_id = record {
  id = id;
  organization_id = organization_id;
  name = "House";
  address_line = "1 Street";
  city = "Cairo";
  country_code = "EG";
}

abbrev leak : ℕ → WorkOrderStatus → WorkOrder
leak id status = record {
  id = id;
  organization_id = 1;
  property_id = 3;
  unit_id = none;
  title = "Leak";
  description = "In the kitchen";
  priority = normal;
  status = status;
  reported_by_id = 7;
  assigned_to_id = none;
  due_at = none;
  resolved_at = none;
  closed_at = none;
  created_at = id;
}

abbrev db : Database
db = record empty {
  properties = house 3 1 ∷ house 4 2 ∷ [];
  work_orders = leak 5 opened ∷ leak 6 closed ∷ [];
}

abbrev any_order : String → String → Bool
any_order s t = true

abbrev shown : DashboardSummary
shown = record {
  properties = 1;
  units = 0;
  active_leases = 0;
  open_work_orders = 1;
  unread_notifications = 0;
  subscription_plan = "starter";
  subscription_status = "trialing";
}

summary-listings_example :
    Agrees shown (house 3 1 ∷ []) [] [] (leak 6 closed ∷ leak 5 opened ∷ []) []
unfolding dashboard_summary list_properties list_units list_leases list_work_orders
    list_notifications order_by
summary-listings_example =
    summary-listings tenant user any_order db 50 shown (house 3 1 ∷ []) [] []
      (leak 6 closed ∷ leak 5 opened ∷ []) [] refl refl refl refl refl refl (omega arith)
