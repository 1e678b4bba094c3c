-- ===== src/Properties.antt =====
-- app/api/routes/properties.py, with the payloads of app/schemas/property.py as pydantic lets them
-- through. `upper` is `str.upper`, `text_before` the order in which the database sorts texts.
use mytenancyplus.Prelude.{
  str_eq, is_some, ℕ, Uuid, DateTime, String, Bool, true, ◌&&◌, ◌==◌, List, [], ◌∷◌,
}
use mytenancyplus.Prelude.Tables.{scalar, select}
use mytenancyplus.Prelude.Order.{order_by}
use mytenancyplus.Text.{strip}
use mytenancyplus.Models.Organization.{User}
use mytenancyplus.Models.Estate.{Property, EstateUnit}
use mytenancyplus.Transaction.{
  raise_if, integrity_error, Action, http_exception, pure, gets, or_raise, modify, commit, ◌>>=◌,
  ◌>>◌,
}
use mytenancyplus.Tenancy.{TenantContext}
use mytenancyplus.Audit.{record_audit_event}

pub record PropertyCreate : Type 0 where
  pub name : String
  pub address_line : String
  pub city : String
  pub country_code : String

pub record UnitCreate : Type 0 where
  pub property_id : Uuid
  pub label : String
  pub bedrooms : ℕ
  pub monthly_rent : ℕ
  pub currency : String

-- Property(...)
abbrev pub new_property : (String → String) → PropertyCreate → Uuid → TenantContext → Property
new_property upper payload id tenant = record {
  id = id;
  organization_id = tenant.organization_id;
  name = strip payload.name;
  address_line = strip payload.address_line;
  city = strip payload.city;
  country_code = upper payload.country_code;
}

unfoldable pub create_property :
    (String → String)
    → PropertyCreate
    → Uuid
    → Uuid
    → DateTime
    → TenantContext
    → User
    → Action Property
create_property upper payload id audit_id now tenant user = do
  let property = new_property upper payload id tenant
  modify (λ db. record db { properties = property ∷ db.properties })
  record_audit_event audit_id now (record {
    organization_id = tenant.organization_id;
    actor_user_id = user.id;
    action = "property.created";
    resource_type = "property";
    resource_id = property.id;
    details = [];
  })
  commit
  pure property

-- Unit(...), with the default of `is_active`.
abbrev pub new_unit : (String → String) → UnitCreate → Uuid → TenantContext → EstateUnit
new_unit upper payload id tenant = record {
  id = id;
  organization_id = tenant.organization_id;
  property_id = payload.property_id;
  label = strip payload.label;
  bedrooms = payload.bedrooms;
  monthly_rent = payload.monthly_rent;
  currency = upper payload.currency;
  is_active = true;
}

-- The property of the payload, in the tenant's organization.
abbrev pub is_own_property : Uuid → Uuid → Property → Bool
is_own_property organization_id id p = p.id == id && p.organization_id == organization_id

-- The unique constraint of units: another unit of the property has the label.
abbrev pub same_label : EstateUnit → EstateUnit → Bool
same_label unit u = u.property_id == unit.property_id && str_eq u.label unit.label

unfoldable pub create_unit :
    (String → String) → UnitCreate → Uuid → TenantContext → Action EstateUnit
create_unit upper payload id tenant = do
  property ←
      gets (λ db. scalar (is_own_property tenant.organization_id payload.property_id) db.properties)
  or_raise property (http_exception 404 "Property not found")
  let unit = new_unit upper payload id tenant
  taken ← gets (λ db. scalar (same_label unit) db.units)
  raise_if (is_some taken) integrity_error
  modify (λ db. record db { units = unit ∷ db.units })
  commit
  pure unit

abbrev pub by_name : (String → String → Bool) → Property → Property → Bool
by_name text_before p q = text_before p.name q.name

unfoldable pub list_properties : (String → String → Bool) → TenantContext → Action (List Property)
list_properties text_before tenant = gets (λ db.
    order_by (by_name text_before)
      (select (λ p. p.organization_id == tenant.organization_id) db.properties))

abbrev pub by_label : (String → String → Bool) → EstateUnit → EstateUnit → Bool
by_label text_before u v = text_before u.label v.label

unfoldable pub list_units : (String → String → Bool) → TenantContext → Action (List EstateUnit)
list_units text_before tenant = gets (λ db.
    order_by (by_label text_before)
      (select (λ u. u.organization_id == tenant.organization_id) db.units))
