-- ===== src/Policies/Examples.antt =====
-- The properties of one of two organizations, read with row-level security.
use mytenancyplus.Prelude.{ℕ, String, Bool, ◌≡◌, true, some, [], ◌∷◌}
use mytenancyplus.Models.Organization.{User, owner}
use mytenancyplus.Models.Estate.{Property}
use mytenancyplus.Transaction.{Database, empty, request}
use mytenancyplus.Tenancy.{TenantContext}
use mytenancyplus.Properties.{PropertyCreate, create_property, list_properties}
use mytenancyplus.Isolation.{HasKeys, properties_listed, property_created}
use mytenancyplus.Policies.{secured}
use mytenancyplus.Policies.Checked.{IsChecked, writes-IsChecked}
use mytenancyplus.Policies.Agreement.{answers_secured}

abbrev user : User
user = record { id = 7; email = "a@b.c"; full_name = "A"; password_hash = "h"; is_active = true }

abbrev tenant : TenantContext
tenant = record { organization_id = 1; user_id = 7; role = owner }

abbrev house : ℕ → ℕ → Property
house id organization_id = record {
  id = id;
  organization_id = organization_id;
  name = "House";
  address_line = "1 Street";
  city = "Cairo";
  country_code = "EG";
}

abbrev db : Database
db = record empty { properties = house 3 1 ∷ house 4 2 ∷ [] }

abbrev any_order : String → String → Bool
any_order s t = true

answers_secured_example :
    (request (list_properties any_order tenant) (secured (some 1) db)).0
    ≡ (request (list_properties any_order tenant) db).0
answers_secured_example =
    answers_secured tenant user (list_properties any_order tenant) db (properties_listed any_order)

abbrev cabin : PropertyCreate
cabin = record { name = "Cabin"; address_line = "9 Hill"; city = "Siwa"; country_code = "EG" }

abbrev same : String → String
same s = s

db-HasKeys : HasKeys db
db-HasKeys = record { order_key = tt; notification_key = tt; document_key = tt }

writes-IsChecked_example :
    IsChecked (some 1) db (request (create_property same cabin 5 6 1000 tenant user) db).1
writes-IsChecked_example =
    writes-IsChecked tenant user db (request (create_property same cabin 5 6 1000 tenant user) db).1
      db-HasKeys (property_created same cabin 5 6 1000)
