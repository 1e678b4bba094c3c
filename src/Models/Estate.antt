-- ===== src/Models/Estate.antt =====
-- app/models/property.py. Money is a number of cents: the columns are `Numeric(14, 2)`.
use mytenancyplus.Prelude.{ℕ, Uuid, String, Bool}

pub record Property : Type 0 where
  pub id : Uuid
  pub organization_id : Uuid
  pub name : String
  pub address_line : String
  pub city : String
  pub country_code : String

pub record EstateUnit : Type 0 where
  pub id : Uuid
  pub organization_id : Uuid
  pub property_id : Uuid
  pub label : String
  pub bedrooms : ℕ
  pub monthly_rent : ℕ
  pub currency : String
  pub is_active : Bool
