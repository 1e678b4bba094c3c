-- ===== src/Schema/Stored.antt =====
-- The rows that validated requests make, in the columns of their tables.
use Prim.Native.String.{count}
use mytenancyplus.Prelude.{
  Uuid, Date, DateTime, String, Bool, true, ◌≡◌, ◌∙◌, refl, leb, is_some, Option, none, some, arith,
  [], ◌∷◌,
}
use mytenancyplus.Prelude.Tables.{All, scalar}
use mytenancyplus.Text.Counts.{count-strip}
use mytenancyplus.Models.Organization.{User}
use mytenancyplus.Models.Estate.{EstateUnit}
use mytenancyplus.Models.Lease.{LeaseStatus, draft, active, ended, cancelled}
use mytenancyplus.Transaction.{Database, AsyncSession, Result, request, begin, close_session}
use mytenancyplus.Transaction.Rules.{or_raise_rule, raise_if_rule}
use mytenancyplus.Tenancy.{TenantContext}
use mytenancyplus.Properties.{
  PropertyCreate, UnitCreate, new_property, new_unit, create_property, create_unit, is_own_property,
  same_label,
}
use mytenancyplus.Leases.{
  LeaseCreate, TenantCreate, create_tenant, create_lease, new_lease, new_profile,
}
use mytenancyplus.Leases.Occupancy.{create_rule}
use mytenancyplus.Requests.{
  validates_property, validates_unit, validates_tenant, validates_lease, phone_bounded,
}
use mytenancyplus.Schema.{string, date, enum, optional}
use mytenancyplus.Schema.Rows.{
  property_fits, unit_fits, tenant_fits, lease_fits, takes, takes_value, or_null, characters,
  member, day, lease_status_name,
}

-- The rows of four tables fit the columns that the migrations create.
pub record IsStored (db : Database) : Type 0 where
  pub properties : All (λ p. property_fits p ≡ true) db.properties
  pub units : All (λ u. unit_fits u ≡ true) db.units
  pub tenant_profiles : All (λ t. tenant_fits t ≡ true) db.tenant_profiles
  pub leases : All (λ l. lease_fits l ≡ true) db.leases

module _ (upper : String → String) (tenant : TenantContext) (id : Uuid) where
  pub property_stored :
      (payload : PropertyCreate)
      → validates_property payload ≡ true
      → property_fits (new_property upper payload id tenant)
        ≡ leb (count (upper payload.country_code)) 2
  property_stored payload h =
      ground (
        arith,
        count-strip payload.name,
        count-strip payload.address_line,
        count-strip payload.city,
      )

  pub unit_stored :
      (payload : UnitCreate)
      → validates_unit payload ≡ true
      → unit_fits (new_unit upper payload id tenant) ≡ leb (count (upper payload.currency)) 3
  unit_stored payload h = ground (arith, count-strip payload.label)

phone_stored :
    (phone : Option String)
    → phone_bounded phone ≡ true
    → takes_value (optional "phone" (string 40)) (or_null characters phone) ≡ true
phone_stored none h = refl
phone_stored (some phone) h = h

status_stored :
    (status : LeaseStatus)
    → takes
        (enum "leasestatus" ("DRAFT" ∷ "ACTIVE" ∷ "ENDED" ∷ "CANCELLED" ∷ []))
        (member (lease_status_name status))
      ≡ true
status_stored draft = refl
status_stored active = refl
status_stored ended = refl
status_stored cancelled = refl

end_stored :
    (ends_on : Option Date) → takes_value (optional "ends_on" date) (or_null day ends_on) ≡ true
end_stored none = refl
end_stored (some d) = refl

tenant_stored :
    (is_email : String → Bool) (lower : String → String) (payload : TenantCreate) (id : Uuid)
    (tenant : TenantContext)
    → validates_tenant is_email payload ≡ true
    → leb (count (lower payload.email)) 320 ≡ true
    → tenant_fits (new_profile lower payload id tenant) ≡ true
tenant_stored is_email lower payload id tenant valid short = ground (
  arith,
  count-strip payload.first_name,
  count-strip payload.last_name,
  phone_stored payload.phone,
)

lease_stored :
    (payload : LeaseCreate) (id : Uuid) (tenant : TenantContext)
    → validates_lease payload ≡ true
    → lease_fits (new_lease tenant payload id) ≡ true
lease_stored payload id tenant valid =
    rw (end_stored payload.ends_on, status_stored payload.status) (ground arith)

module _ (tenant : TenantContext) (user : User) (db : Database) (h : IsStored db) where
  pub create_property-IsStored :
      (upper : String → String) (payload : PropertyCreate) (id audit_id : Uuid) (now : DateTime)
      → validates_property payload ≡ true
      → leb (count (upper payload.country_code)) 2 ≡ true
      → IsStored (request (create_property upper payload id audit_id now tenant user) db).1
  unfolding create_property
  create_property-IsStored upper payload id audit_id now valid short = record {
    properties = (property_stored upper tenant id payload valid ∙ short, h.properties);
    units = h.units;
    tenant_profiles = h.tenant_profiles;
    leases = h.leases;
  }

  pub create_unit-IsStored :
      (upper : String → String) (payload : UnitCreate) (id : Uuid)
      → validates_unit payload ≡ true
      → leb (count (upper payload.currency)) 3 ≡ true
      → IsStored (request (create_unit upper payload id tenant) db).1
  unfolding create_unit
  create_unit-IsStored upper payload id valid short =
      or_raise_rule Q
        (scalar (is_own_property tenant.organization_id payload.property_id) db.properties) _ _
        (begin db) (λ _. h)
        λ p _.
          raise_if_rule Q
            (is_some (scalar (same_label (new_unit upper payload id tenant)) db.units)) _ _
            (begin db) (λ _. h)
            λ _. record {
              properties = h.properties;
              units = (unit_stored upper tenant id payload valid ∙ short, h.units);
              tenant_profiles = h.tenant_profiles;
              leases = h.leases;
            }
    where
      Q : Result EstateUnit × AsyncSession → Type 0
      Q r = IsStored (close_session r).1

  pub create_tenant-IsStored :
      (is_email : String → Bool) (lower : String → String) (payload : TenantCreate) (id : Uuid)
      → validates_tenant is_email payload ≡ true
      → leb (count (lower payload.email)) 320 ≡ true
      → IsStored (request (create_tenant lower payload id tenant) db).1
  unfolding create_tenant
  create_tenant-IsStored is_email lower payload id valid short = record {
    properties = h.properties;
    units = h.units;
    tenant_profiles =
        (tenant_stored is_email lower payload id tenant valid short, h.tenant_profiles);
    leases = h.leases;
  }

  pub create_lease-IsStored :
      (payload : LeaseCreate) (id audit_id : Uuid) (now : DateTime)
      → validates_lease payload ≡ true
      → IsStored (request (create_lease payload id audit_id now tenant user) db).1
  create_lease-IsStored payload id audit_id now valid =
      create_rule payload id audit_id now tenant user (λ r. IsStored r.1) db (λ _. h)
        λ _. record {
          properties = h.properties;
          units = h.units;
          tenant_profiles = h.tenant_profiles;
          leases = (lease_stored payload id tenant valid, h.leases);
        }
