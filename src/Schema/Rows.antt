-- ===== src/Schema/Rows.antt =====
-- The rows of the models as values of the columns that the migrations create, and which values a
-- column takes: text of up to n characters for String(n), up to fourteen digits of cents for
-- Numeric(14, 2), 32 bits for Integer, null where it is nullable. An amount is in cents, as two
-- decimals give it. `created_at` and `updated_at`, which the models leave out, are left out.
use Prim.Native.String.{count}
use mytenancyplus.Prelude.{
  ℕ, zero, suc, ◌*◌, ◌==◌, Uuid, Date, DateTime, String, str_eq, Bool, true, false, ◌&&◌, ◌||◌, leb,
  ltb, Option, none, some, List, [], ◌∷◌,
}
use mytenancyplus.Prelude.Tables.{length}
use mytenancyplus.Models.Estate.{Property, EstateUnit}
use mytenancyplus.Models.Lease.{LeaseStatus, draft, active, ended, cancelled, TenantProfile, Lease}
use mytenancyplus.Schema.{
  ColumnType, uuid, string, text, boolean, integer, numeric, date, datetime, enum, Column, Element,
  columns_of, any, every,
}
use mytenancyplus.Schema.Initial.{
  properties_columns, units_columns, tenant_profiles_columns, leases_columns,
}

-- A text that the program walks is a list of its code points.
pub data Value : Type 0 where
  null : Value
  identifier : Uuid → Value
  characters : String → Value
  code_points : List ℕ → Value
  flag : Bool → Value
  whole : ℕ → Value
  cents : ℕ → Value
  day : Date → Value
  moment : DateTime → Value
  member : String → Value

abbrev pub power_of_ten : ℕ → ℕ
power_of_ten zero = 1
power_of_ten (suc n) = 10 * power_of_ten n

-- A column of decimals in other than hundredths takes no amount here.
abbrev pub takes : ColumnType → Value → Bool
takes uuid (identifier id) = true
takes (string n) (characters s) = leb (count s) n
takes (string n) (code_points s) = leb (length s) n
takes text (characters s) = true
takes boolean (flag b) = true
takes integer (whole n) = ltb n 2147483648
takes (numeric digits places) (cents n) = places == 2 && ltb n (power_of_ten digits)
takes date (day d) = true
takes datetime (moment t) = true
takes (enum name members) (member m) = any (str_eq m) members
takes _ _ = false

abbrev pub takes_value : Column → Value → Bool
takes_value c null = c.nullable
takes_value c v = takes c.type v

abbrev pub Row : Type 0
Row = List (String × Value)

abbrev pub is_time_stamp : String → Bool
is_time_stamp name = str_eq name "created_at" || str_eq name "updated_at"

abbrev pub has_value : Row → Column → Bool
has_value row c = any (λ v. str_eq v.0 c.name && takes_value c v.1) row

-- Each column of the table, but for the time stamps, has a value in the row that it takes.
abbrev pub fits : List Element → Row → Bool
fits elements row = every (λ c. is_time_stamp c.name || has_value row c) (columns_of elements)

abbrev pub or_null : {A : Type 0} → (A → Value) → Option A → Value
or_null f none = null
or_null f (some a) = f a

abbrev pub property_row : Property → Row
property_row p =
    ("id", identifier p.id)
    ∷ ("organization_id", identifier p.organization_id)
    ∷ ("name", characters p.name)
    ∷ ("address_line", characters p.address_line)
    ∷ ("city", characters p.city)
    ∷ ("country_code", characters p.country_code)
    ∷ []

abbrev pub unit_row : EstateUnit → Row
unit_row u =
    ("id", identifier u.id)
    ∷ ("organization_id", identifier u.organization_id)
    ∷ ("property_id", identifier u.property_id)
    ∷ ("label", characters u.label)
    ∷ ("bedrooms", whole u.bedrooms)
    ∷ ("monthly_rent", cents u.monthly_rent)
    ∷ ("currency", characters u.currency)
    ∷ ("is_active", flag u.is_active)
    ∷ []

abbrev pub tenant_row : TenantProfile → Row
tenant_row t =
    ("id", identifier t.id)
    ∷ ("organization_id", identifier t.organization_id)
    ∷ ("first_name", characters t.first_name)
    ∷ ("last_name", characters t.last_name)
    ∷ ("email", characters t.email)
    ∷ ("phone", or_null characters t.phone)
    ∷ []

-- SQLAlchemy stores a member of an enumeration by its name.
abbrev pub lease_status_name : LeaseStatus → String
lease_status_name draft = "DRAFT"
lease_status_name active = "ACTIVE"
lease_status_name ended = "ENDED"
lease_status_name cancelled = "CANCELLED"

abbrev pub lease_row : Lease → Row
lease_row l =
    ("id", identifier l.id)
    ∷ ("organization_id", identifier l.organization_id)
    ∷ ("unit_id", identifier l.unit_id)
    ∷ ("tenant_id", identifier l.tenant_id)
    ∷ ("starts_on", day l.starts_on)
    ∷ ("ends_on", or_null day l.ends_on)
    ∷ ("monthly_rent", cents l.monthly_rent)
    ∷ ("deposit", cents l.deposit)
    ∷ ("status", member (lease_status_name l.status))
    ∷ []

abbrev pub property_fits : Property → Bool
property_fits p = fits properties_columns (property_row p)

abbrev pub unit_fits : EstateUnit → Bool
unit_fits u = fits units_columns (unit_row u)

abbrev pub tenant_fits : TenantProfile → Bool
tenant_fits t = fits tenant_profiles_columns (tenant_row t)

abbrev pub lease_fits : Lease → Bool
lease_fits l = fits leases_columns (lease_row l)
