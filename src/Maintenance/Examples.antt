-- ===== src/Maintenance/Examples.antt =====
-- The theorems on work orders at concrete tables.
use mytenancyplus.Prelude.{◌≡◌, refl, true, none, some, [], ◌∷◌}
use mytenancyplus.Prelude.Tables.{All}
use mytenancyplus.Models.Organization.{User, manager}
use mytenancyplus.Models.Maintenance.{WorkOrder, normal, high, opened, triaged, closed}
use mytenancyplus.Models.Estate.{Property}
use mytenancyplus.Transaction.{Database, http_exception, empty, ok, err, request}
use mytenancyplus.Tenancy.{TenantContext}
use mytenancyplus.Maintenance.{transition_work_order, enter}
use mytenancyplus.Maintenance.Lifecycle.{Moves, IsCoherent, transition_exact}
use mytenancyplus.Maintenance.Routes.{
  WorkOrderCreate, create_work_order, WorkOrderUpdate, NewIds, find_work_order, update_work_order,
}
use mytenancyplus.Maintenance.Creation.{Created, create_work_order-Created}
use mytenancyplus.Maintenance.Updates.{HasUpdate, update-IsCoherent, update_committed}

abbrev user : User
user = record { id = 7; email = "a@b.c"; full_name = "A"; password_hash = "h"; is_active = true }

abbrev tenant : TenantContext
tenant = record { organization_id = 1; user_id = 7; role = manager }

abbrev work_order : WorkOrder
work_order = record {
  id = 3;
  organization_id = 1;
  property_id = 4;
  unit_id = none;
  title = "Leak";
  description = "In the kitchen";
  priority = normal;
  status = opened;
  reported_by_id = 7;
  assigned_to_id = none;
  due_at = none;
  resolved_at = none;
  closed_at = none;
  created_at = 5;
}

-- A work order of another organization, which was done.
abbrev foreign : WorkOrder
foreign = record work_order {
  id = 8;
  organization_id = 2;
  status = closed;
  resolved_at = some 6;
  closed_at = some 9;
}

abbrev db : Database
db = record empty { work_orders = work_order ∷ foreign ∷ [] }

abbrev ids : NewIds
ids = record { row = 10; notification = 11; audit = 12 }

-- Triage, with a higher priority.
abbrev payload : WorkOrderUpdate
payload = record {
  status = some triaged;
  priority = some high;
  assigned_to_id = none;
  due_at = some (some 99);
}

abbrev updated : WorkOrder
updated = record work_order { status = triaged; priority = high; due_at = some 99 }

update_answer : (request (update_work_order 3 payload ids 20 tenant user) db).0 ≡ ok updated
unfolding update_work_order find_work_order transition_work_order
update_answer = refl

update_committed_example :
    HasUpdate 3 payload ids 20 tenant user db updated
      (request (update_work_order 3 payload ids 20 tenant user) db).1
update_committed_example = update_committed 3 payload ids 20 tenant user db updated update_answer

-- The user is no member of the organization of the other work order.
missing_answer :
    (request (update_work_order 8 payload ids 20 tenant user) db).0
    ≡ err (http_exception 404 "Work order not found")
unfolding update_work_order find_work_order transition_work_order
missing_answer = refl

update-IsCoherent_example :
    All IsCoherent (request (update_work_order 3 payload ids 20 tenant user) db).1.work_orders
update-IsCoherent_example = update-IsCoherent 3 payload ids 20 tenant user db (
  record { resolution = refl; closing = refl },
  (record { resolution = refl; closing = refl }, tt),
)

triage_answer : transition_work_order work_order triaged 20 ≡ ok (enter triaged 20 work_order)
unfolding transition_work_order
triage_answer = refl

transition_exact_example :
    ((w' : WorkOrder)
      → transition_work_order work_order triaged 20 ≡ ok w'
      → Moves opened triaged × (w'.status ≡ triaged))
    × (Moves opened triaged
        → (w' : WorkOrder) × (transition_work_order work_order triaged 20 ≡ ok w'))
transition_exact_example = transition_exact work_order triaged 20

-- A property, and a work order for it that has no assignee.
abbrev house : Property
house = record {
  id = 4;
  organization_id = 1;
  name = "House";
  address_line = "1 Street";
  city = "Cairo";
  country_code = "EG";
}

abbrev leak : WorkOrderCreate
leak = record {
  property_id = 4;
  unit_id = none;
  title = "Leak";
  description = "In the kitchen";
  priority = normal;
  assigned_to_id = none;
  due_at = none;
}

create_work_order-Created_example :
    Created leak ids 20 tenant user
      (record db { properties = house ∷ [] })
      (request (create_work_order leak ids 20 tenant user) (record db { properties = house ∷ [] }))
create_work_order-Created_example =
    create_work_order-Created leak ids 20 tenant user (record db { properties = house ∷ [] })
