-- ===== src/Requests.antt =====
-- What pydantic checks of a request before a handler of properties, tenants, leases, work orders or
-- refresh tokens sees it (app/schemas/property.py, maintenance.py, auth.py): the bounds on its fields,
-- as tests. `is_email` is EmailStr.
use Prim.Native.String.{count}
use mytenancyplus.Prelude.{ℕ, String, Bool, true, not, ◌&&◌, leb, ltb, Option, none, some}
use mytenancyplus.Transaction.{Action, Exception, raise_if, ◌>>◌}
use mytenancyplus.Properties.{PropertyCreate, UnitCreate}
use mytenancyplus.Maintenance.Routes.{WorkOrderCreate}
use mytenancyplus.Leases.{LeaseCreate, TenantCreate, ends_early}

-- Field(min_length=low, max_length=high)
abbrev pub bounded : ℕ → ℕ → String → Bool
bounded low high s = leb low (count s) && leb (count s) high

-- Field(max_digits=14, decimal_places=2), on cents: fourteen digits in all.
abbrev pub fourteen_digits : ℕ → Bool
fourteen_digits cents = ltb cents 100000000000000

abbrev pub validates_property : PropertyCreate → Bool
validates_property payload =
    bounded 2 180 payload.name
    && bounded 4 300 payload.address_line
    && bounded 2 100 payload.city
    && bounded 2 2 payload.country_code

abbrev pub validates_unit : UnitCreate → Bool
validates_unit payload =
    bounded 1 80 payload.label
    && leb payload.bedrooms 100
    && ltb 0 payload.monthly_rent
    && fourteen_digits payload.monthly_rent
    && bounded 3 3 payload.currency

-- phone: str | None = Field(default=None, max_length=40)
abbrev pub phone_bounded : Option String → Bool
phone_bounded none = true
phone_bounded (some phone) = leb (count phone) 40

abbrev pub validates_tenant : (String → Bool) → TenantCreate → Bool
validates_tenant is_email payload =
    bounded 1 100 payload.first_name
    && bounded 1 100 payload.last_name
    && is_email payload.email
    && phone_bounded payload.phone

-- With validate_date_range.
abbrev pub validates_lease : LeaseCreate → Bool
validates_lease payload =
    ltb 0 payload.monthly_rent
    && fourteen_digits payload.monthly_rent
    && fourteen_digits payload.deposit
    && not (ends_early payload.starts_on payload.ends_on)

abbrev pub validates_work_order : WorkOrderCreate → Bool
validates_work_order payload = bounded 3 180 payload.title && bounded 5 10000 payload.description

-- RefreshTokenRequest and LogoutRequest
abbrev pub validates_refresh_token : String → Bool
validates_refresh_token = bounded 40 500

-- A body that is not valid does not reach the handler; `invalid` is what FastAPI raises for it.
abbrev pub handled : {A : Type 0} → Exception → Bool → Action A → Action A
handled invalid is_valid handler = raise_if (not is_valid) invalid >> handler
