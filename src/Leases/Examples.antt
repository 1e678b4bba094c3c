-- ===== src/Leases/Examples.antt =====
-- The theorems on leases at concrete tables.
use mytenancyplus.Prelude.{ℕ, Date, ◌≡◌, ◌↔◌, refl, true, none, some, [], ◌∷◌}
use mytenancyplus.Models.Organization.{User, owner}
use mytenancyplus.Models.Lease.{Lease, TenantProfile, active}
use mytenancyplus.Models.Estate.{EstateUnit}
use mytenancyplus.Transaction.{Database, ok, empty, err, multiple_results_found, request}
use mytenancyplus.Tenancy.{TenantContext}
use mytenancyplus.Leases.{
  new_lease, LeaseCreate, date_ranges_overlap, overlapping_lease_query, create_lease,
  lease_conflict,
}
use mytenancyplus.Leases.Overlap.{Covers, overlap_iff_common_day}
use mytenancyplus.Leases.Occupancy.{NoClash, create_lease-NoClash, create_active}

abbrev user : User
user = record { id = 7; email = "a@b.c"; full_name = "A"; password_hash = "h"; is_active = true }

abbrev tenant : TenantContext
tenant = record { organization_id = 1; user_id = 7; role = owner }

abbrev unit : EstateUnit
unit = record {
  id = 2;
  organization_id = 1;
  property_id = 3;
  label = "1A";
  bedrooms = 2;
  monthly_rent = 100000;
  currency = "EUR";
  is_active = true;
}

abbrev profile : TenantProfile
profile = record {
  id = 4;
  organization_id = 1;
  first_name = "T";
  last_name = "P";
  email = "t@p.c";
  phone = none;
}

-- An active lease for the days 10 to 20.
abbrev lease : Lease
lease = record {
  id = 5;
  organization_id = 1;
  unit_id = 2;
  tenant_id = 4;
  starts_on = 10;
  ends_on = some 20;
  monthly_rent = 100000;
  deposit = 0;
  status = active;
}

-- The unit is let once, and a second time from day 30 on.
abbrev db : Database
db = record empty {
  units = unit ∷ [];
  tenant_profiles = profile ∷ [];
  leases = lease ∷ record lease { id = 6; starts_on = 30; ends_on = none } ∷ [];
}

abbrev payload : Date → LeaseCreate
payload starts_on = record {
  unit_id = 2;
  tenant_id = 4;
  starts_on = starts_on;
  ends_on = some 40;
  monthly_rent = 100000;
  deposit = 0;
  status = active;
}

overlap_iff_common_day_example :
    (date_ranges_overlap 10 (some 20) 20 none ≡ true)
    ↔ ((day : Date) × Covers 10 (some 20) day × Covers 20 none day)
overlap_iff_common_day_example = overlap_iff_common_day 10 (some 20) 20 none refl refl

db-NoClash : NoClash db.leases
unfolding date_ranges_overlap
db-NoClash = ((refl, tt), (tt, tt))

create_lease-NoClash_example :
    NoClash (request (create_lease (payload 20) 8 9 50 tenant user) db).1.leases
create_lease-NoClash_example = create_lease-NoClash (payload 20) 8 9 50 tenant user db db-NoClash

one_in_the_way : (request (create_lease (payload 25) 8 9 50 tenant user) db).0 ≡ err lease_conflict
unfolding overlapping_lease_query
one_in_the_way = create_active (payload 25) 8 9 50 tenant user db refl refl refl

-- Two leases are in the way of the days 20 to 40.
create_active_example :
    (request (create_lease (payload 20) 8 9 50 tenant user) db).0 ≡ err multiple_results_found
unfolding overlapping_lease_query
create_active_example = create_active (payload 20) 8 9 50 tenant user db refl refl refl

-- Nobody lives there yet.
abbrev vacant : Database
vacant = record db { leases = [] }

vacant_answer :
    (id : ℕ)
    → (request (create_lease (payload 20) id 9 50 tenant user) vacant).0
      ≡ ok (new_lease tenant (payload 20) id)
unfolding overlapping_lease_query
vacant_answer id = create_active (payload 20) id 9 50 tenant user vacant refl refl refl
