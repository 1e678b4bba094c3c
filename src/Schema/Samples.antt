-- ===== src/Schema/Samples.antt =====
-- Requests that pydantic lets through, and their rows.
use mytenancyplus.Prelude.{String, Bool, true, false, ◌≡◌, refl, none, some, [], ◌∷◌, arith}
use mytenancyplus.Models.Organization.{User, owner}
use mytenancyplus.Models.Lease.{active}
use mytenancyplus.Transaction.{empty, request}
use mytenancyplus.Text.{strip}
use mytenancyplus.Tenancy.{TenantContext}
use mytenancyplus.Properties.{
  PropertyCreate, UnitCreate, new_property, new_unit, create_property, create_unit,
}
use mytenancyplus.Leases.{LeaseCreate, TenantCreate, create_tenant, create_lease}
use mytenancyplus.Requests.{validates_property}
use mytenancyplus.Schema.Rows.{property_fits, unit_fits}
use mytenancyplus.Documents.{UploadForm, new_document}
use mytenancyplus.Storage.{Stored, storage_key, store_upload, store_chunks}
use mytenancyplus.Storage.Paths.{name_of}
use mytenancyplus.Storage.Names.{safe_file_name}
use mytenancyplus.Storage.Examples.{strokes, strokes-IsUuidText, digest, root, no_files, upload}
use mytenancyplus.Schema.Exact.{document_fits, fits_exactly}
use mytenancyplus.Schema.Stored.{IsStored}
use mytenancyplus.Schema.Orders.{order_fits}
use mytenancyplus.Schema.Typed.{requests-AreStored}
use mytenancyplus.Prelude.Tables.{All}
use mytenancyplus.Models.Maintenance.{high, closed}
use mytenancyplus.Maintenance.Routes.{
  WorkOrderCreate, WorkOrderUpdate, NewIds, create_work_order, update_work_order,
}

abbrev user : User
user = record { id = 7; email = "a@b.c"; full_name = "A"; password_hash = "h"; is_active = true }

abbrev tenant : TenantContext
tenant = record { organization_id = 1; user_id = 7; role = owner }

abbrev house : PropertyCreate
house = record { name = " House "; address_line = "1 Street"; city = "Cairo"; country_code = "EG" }

abbrev flat : UnitCreate
flat = record {
  property_id = 3;
  label = "1A";
  bedrooms = 2;
  monthly_rent = 90000;
  currency = "EUR";
}

abbrev person : TenantCreate
person = record { first_name = "Mona"; last_name = "Adel"; email = "mona@b.c"; phone = none }

abbrev year : LeaseCreate
year = record {
  unit_id = 4;
  tenant_id = 5;
  starts_on = 100;
  ends_on = some 465;
  monthly_rent = 90000;
  deposit = 0;
  status = active;
}

abbrev same : String → String
same s = s

abbrev any_email : String → Bool
any_email s = true

abbrev nothing_stored : IsStored empty
nothing_stored = record { properties = tt; units = tt; tenant_profiles = tt; leases = tt }

abbrev boiler : WorkOrderCreate
boiler = record {
  property_id = 3;
  unit_id = none;
  title = "Boiler";
  description = "No heat";
  priority = high;
  assigned_to_id = none;
  due_at = none;
}

abbrev close_it : WorkOrderUpdate
close_it = record { status = some closed; priority = none; assigned_to_id = none; due_at = none }

abbrev ids : NewIds
ids = record { row = 10; audit = 11; notification = 12 }

requests-AreStored_example :
    IsStored (request (create_property same house 8 9 1000 tenant user) empty).1
    × IsStored (request (create_unit same flat 8 tenant) empty).1
    × IsStored (request (create_tenant same person 8 tenant) empty).1
    × IsStored (request (create_lease year 8 9 1000 tenant user) empty).1
    × All
        (λ v. order_fits v ≡ true)
        (request (create_work_order boiler ids 1000 tenant user) empty).1.work_orders
    × All
        (λ v. order_fits v ≡ true)
        (request (update_work_order 8 close_it ids 1000 tenant user) empty).1.work_orders
requests-AreStored_example =
    requests-AreStored tenant user empty nothing_stored tt same same any_email house flat person
      year boiler close_it 8 9 ids 1000 refl refl refl refl refl refl refl refl

abbrev form : UploadForm
form = record { file = upload; resource_type = "unit"; resource_id = 4 }

-- The file of three bytes, stored.
abbrev kept : Stored
kept = record { storage_key = storage_key strokes 1 8 (b'a' ∷ []); size = 3; checksum = "digest" }

fits_exactly_example :
    (property_fits (new_property same house 8 tenant) ≡ true)
    × (unit_fits (new_unit same flat 8 tenant) ≡ true)
    × (document_fits (new_document form 8 1000 tenant user kept) ≡ true)
unfolding store_upload store_chunks safe_file_name name_of
fits_exactly_example =
    fits_exactly strokes strokes-IsUuidText digest (λ _. omega arith) same house flat form root 8
      100 no_files 1000 tenant user kept refl refl refl (omega arith) (omega arith) refl
      (omega arith)

-- As with str.upper, which makes "SSSS" of "ßß".
code_too_long :
    (validates_property (record house { country_code = "ßß" }) ≡ true)
    × (property_fits (new_property (λ _. "SSSS") (record house { country_code = "ßß" }) 8 tenant)
        ≡ false)
unfolding strip
code_too_long = (refl, refl)
