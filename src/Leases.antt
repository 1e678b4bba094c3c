-- ===== src/Leases.antt =====
-- app/services/leases.py and app/api/routes/leases.py, with the validator of LeaseCreate in
-- app/schemas/property.py.
pub mod Overlap
pub mod Occupancy
pub mod Race
pub mod Listing
pub mod Examples
use mytenancyplus.Prelude.{
  ℕ, Uuid, Date, DateTime, String, Bool, true, false, ◌&&◌, ◌||◌, ◌==◌, leb, ltb, Option, none,
  some, List, [], ◌∷◌, is_some, if◌then◌else◌,
}
use mytenancyplus.Prelude.Tables.{scalar, select}
use mytenancyplus.Text.{strip}
use mytenancyplus.Models.Organization.{User}
use mytenancyplus.Models.Lease.{Lease, LeaseStatus, TenantProfile, is_active, status_value}
use mytenancyplus.Models.Audit.{JsonScalar, str}
use mytenancyplus.Transaction.{
  Database, Action, Result, ok, err, Exception, http_exception, validation_error,
  multiple_results_found, pure, raise, lift, gets, or_raise, raise_if, modify, commit, ◌>>=◌, ◌>>◌,
}
use mytenancyplus.Tenancy.{TenantContext}
use mytenancyplus.Audit.{record_audit_event}

-- `end is None or day <= end`
abbrev pub until : Date → Option Date → Bool
until day none = true
until day (some last) = leb day last

unfoldable pub date_ranges_overlap : Date → Option Date → Date → Option Date → Bool
date_ranges_overlap first_start first_end second_start second_end =
    until second_start first_end && until first_start second_end

-- What the query asks for, and what a new lease is checked against.
pub record Period : Type 0 where
  pub organization_id : Uuid
  pub unit_id : Uuid
  pub starts_on : Date
  pub ends_on : Option Date

-- The `where` clauses of overlapping_lease_query: `or_(ends_on is NULL, ends_on >= starts_on)`, and
-- `starts_on <= ends_on` where the new lease has an end.
unfoldable pub overlapping_lease_query : Period → Lease → Bool
overlapping_lease_query p l =
    l.organization_id == p.organization_id
    && l.unit_id == p.unit_id
    && is_active l.status
    && until p.starts_on l.ends_on
    && until l.starts_on p.ends_on

-- result.scalar_one_or_none()
abbrev pub scalar_one_or_none : {A : Type 0} → List A → Result (Option A)
scalar_one_or_none [] = ok none
scalar_one_or_none (x ∷ []) = ok (some x)
scalar_one_or_none (x ∷ y ∷ rest) = err multiple_results_found

unfoldable pub has_overlapping_active_lease : Period → Action Bool
has_overlapping_active_lease p = do
  rows ← gets (λ db. select (overlapping_lease_query p) db.leases)
  found ← lift (scalar_one_or_none rows)
  pure (is_some found)

pub record LeaseCreate : Type 0 where
  pub unit_id : Uuid
  pub tenant_id : Uuid
  pub starts_on : Date
  pub ends_on : Option Date
  pub monthly_rent : ℕ
  pub deposit : ℕ
  pub status : LeaseStatus

-- self.ends_on is not None and self.ends_on < self.starts_on
abbrev pub ends_early : Date → Option Date → Bool
ends_early starts_on none = false
ends_early starts_on (some ends_on) = ltb ends_on starts_on

unfoldable pub validate_date_range : LeaseCreate → Result LeaseCreate
validate_date_range payload =
    if ends_early payload.starts_on payload.ends_on
    then err (validation_error "ends_on must not be before starts_on")
    else ok payload

abbrev pub period : TenantContext → LeaseCreate → Period
period tenant payload = record {
  organization_id = tenant.organization_id;
  unit_id = payload.unit_id;
  starts_on = payload.starts_on;
  ends_on = payload.ends_on;
}

-- Lease(organization_id=..., **payload.model_dump())
abbrev pub new_lease : TenantContext → LeaseCreate → Uuid → Lease
new_lease tenant payload id = record {
  id = id;
  organization_id = tenant.organization_id;
  unit_id = payload.unit_id;
  tenant_id = payload.tenant_id;
  starts_on = payload.starts_on;
  ends_on = payload.ends_on;
  monthly_rent = payload.monthly_rent;
  deposit = payload.deposit;
  status = payload.status;
}

-- `payload.status == LeaseStatus.ACTIVE and await has_overlapping_active_lease(...)`
abbrev pub conflicts : TenantContext → LeaseCreate → Action Bool
conflicts tenant payload =
    if is_active payload.status
    then has_overlapping_active_lease (period tenant payload)
    else pure false

abbrev pub lease_conflict : Exception
lease_conflict = http_exception 409 "Unit already has an overlapping active lease"

abbrev pub unit_not_found : Exception
unit_not_found = http_exception 404 "Unit or tenant not found"

unfoldable pub create_lease :
    LeaseCreate → Uuid → Uuid → DateTime → TenantContext → User → Action Lease
unfolding has_overlapping_active_lease
create_lease payload id audit_id now tenant user = do
  unit ← gets (λ db.
      scalar (λ u. u.id == payload.unit_id && u.organization_id == tenant.organization_id) db.units)
  profile ← gets (λ db.
      scalar (λ t. t.id == payload.tenant_id && t.organization_id == tenant.organization_id)
        db.tenant_profiles)
  or_raise unit unit_not_found
  or_raise profile unit_not_found
  conflict ← conflicts tenant payload
  raise_if conflict lease_conflict
  let lease = new_lease tenant payload id
  modify (λ db. record db { leases = lease ∷ db.leases })
  record_audit_event audit_id now (record {
    organization_id = tenant.organization_id;
    actor_user_id = user.id;
    action = "lease.created";
    resource_type = "lease";
    resource_id = lease.id;
    details = ("status", str (status_value lease.status)) ∷ [];
  })
  commit
  pure lease

pub record TenantCreate : Type 0 where
  pub first_name : String
  pub last_name : String
  pub email : String
  pub phone : Option String

-- TenantProfile(...); `lower` is `str.lower`.
abbrev pub new_profile : (String → String) → TenantCreate → Uuid → TenantContext → TenantProfile
new_profile lower payload id tenant = record {
  id = id;
  organization_id = tenant.organization_id;
  first_name = strip payload.first_name;
  last_name = strip payload.last_name;
  email = lower payload.email;
  phone = payload.phone;
}

unfoldable pub create_tenant :
    (String → String) → TenantCreate → Uuid → TenantContext → Action TenantProfile
create_tenant lower payload id tenant = do
  let profile = new_profile lower payload id tenant
  modify (λ db. record db { tenant_profiles = profile ∷ db.tenant_profiles })
  commit
  pure profile
