-- ===== src/Isolation/Examples.antt =====
-- Two organizations: a property of the second does not show in the first.
use mytenancyplus.Prelude.{String, Bool, ◌≡◌, true, none, some, [], ◌∷◌}
use mytenancyplus.Models.Organization.{User, owner}
use mytenancyplus.Models.Estate.{Property}
use mytenancyplus.Models.Lease.{active}
use mytenancyplus.Models.Maintenance.{high, closed}
use mytenancyplus.Leases.{LeaseCreate, TenantCreate, create_tenant, create_lease}
use mytenancyplus.Maintenance.Routes.{
  WorkOrderCreate, WorkOrderUpdate, NewIds, create_work_order, add_work_order_comment,
  update_work_order,
}
use mytenancyplus.Isolation.Links.{IsLinked}
use mytenancyplus.Isolation.Linked.{requests-IsLinked}
use mytenancyplus.Transaction.{Database, empty, request}
use mytenancyplus.Tenancy.{TenantContext}
use mytenancyplus.Properties.{
  PropertyCreate, UnitCreate, create_property, create_unit, list_properties,
}
use mytenancyplus.Isolation.{HasKeys, OtherWrites, done, next, property_created, properties_listed}
use mytenancyplus.Isolation.Runs.{answers_isolated}

abbrev user : User
user = record { id = 7; email = "a@b.c"; full_name = "A"; password_hash = "h"; is_active = true }

abbrev tenant : TenantContext
tenant = record { organization_id = 1; user_id = 7; role = owner }

abbrev stranger : User
stranger = record {
  id = 8;
  email = "c@d.e";
  full_name = "C";
  password_hash = "h";
  is_active = true;
}

abbrev elsewhere : TenantContext
elsewhere = record { organization_id = 2; user_id = 8; role = owner }

abbrev house : Property
house = record {
  id = 3;
  organization_id = 1;
  name = "House";
  address_line = "1 Street";
  city = "Cairo";
  country_code = "EG";
}

abbrev db : Database
db = record empty { properties = house ∷ [] }

abbrev payload : PropertyCreate
payload = record { name = "Villa"; address_line = "2 Road"; city = "Giza"; country_code = "eg" }

abbrev upper : String → String
upper s = "EG"

abbrev any_order : String → String → Bool
any_order s t = true

abbrev later : Database
later = (request (create_property upper payload 4 5 100 elsewhere stranger) db).1

others : OtherWrites 1 db later
others = next elsewhere stranger (λ e. cc e) (property_created upper payload 4 5 100) done

db-HasKeys : HasKeys db
db-HasKeys = record { order_key = tt; notification_key = tt; document_key = tt }

answers_isolated_example :
    (request (list_properties any_order tenant) later).0
    ≡ (request (list_properties any_order tenant) db).0
answers_isolated_example =
    answers_isolated tenant user (list_properties any_order tenant) db later db-HasKeys others
      (properties_listed any_order)

abbrev flat : UnitCreate
flat = record {
  property_id = 3;
  label = "1A";
  bedrooms = 2;
  monthly_rent = 90000;
  currency = "EUR";
}

abbrev person : TenantCreate
person = record { first_name = "Mona"; last_name = "Adel"; email = "mona@b.c"; phone = none }

abbrev year : LeaseCreate
year = record {
  unit_id = 4;
  tenant_id = 5;
  starts_on = 100;
  ends_on = some 465;
  monthly_rent = 90000;
  deposit = 0;
  status = active;
}

abbrev boiler : WorkOrderCreate
boiler = record {
  property_id = 3;
  unit_id = none;
  title = "Boiler";
  description = "No heat";
  priority = high;
  assigned_to_id = none;
  due_at = none;
}

abbrev close_it : WorkOrderUpdate
close_it = record { status = some closed; priority = none; assigned_to_id = none; due_at = none }

abbrev ids : NewIds
ids = record { row = 10; audit = 11; notification = 12 }

db-IsLinked : IsLinked db
db-IsLinked = record { units = tt; leases = tt; work_orders = tt; work_order_comments = tt }

requests-IsLinked_example :
    IsLinked (request (create_property upper payload 8 9 1000 tenant user) db).1
    × IsLinked (request (create_unit upper flat 8 tenant) db).1
    × IsLinked (request (create_tenant upper person 8 tenant) db).1
    × IsLinked (request (create_lease year 8 9 1000 tenant user) db).1
    × IsLinked (request (create_work_order boiler ids 1000 tenant user) db).1
    × IsLinked (request (add_work_order_comment 8 "Done" 9 1000 tenant user) db).1
    × IsLinked (request (update_work_order 8 close_it ids 1000 tenant user) db).1
requests-IsLinked_example =
    requests-IsLinked tenant user db db-IsLinked upper upper payload flat person year boiler
      close_it "Done" 8 9 ids 1000 tt
