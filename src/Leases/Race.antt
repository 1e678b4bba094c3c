-- ===== src/Leases/Race.antt =====
-- Two requests for one unit that the same database accepts, as it does where both look before either
-- commits: POST /leases looks for overlapping leases without a lock, and the table has no constraint
-- on them.
use mytenancyplus.Prelude.{Uuid, DateTime, ◌≡◌, ==_self, refl, sym, true, [], ◌∷◌}
use mytenancyplus.Models.Organization.{User}
use mytenancyplus.Models.Lease.{Lease, is_active}
use mytenancyplus.Transaction.{Database, Exception, ok, err, request}
use mytenancyplus.Transaction.Rules.{ok_injective}
use mytenancyplus.Tenancy.{TenantContext}
use mytenancyplus.Leases.{
  LeaseCreate, period, new_lease, date_ranges_overlap, overlapping_lease_query, create_lease,
}
use mytenancyplus.Leases.Overlap.{query-eq-overlap}
use mytenancyplus.Leases.Occupancy.{clash, in_the_way, with_lease, create_rule}

-- The lease of a request that was accepted.
accepted_lease :
    (payload : LeaseCreate) (id audit_id : Uuid) (now : DateTime) (tenant : TenantContext)
    (user : User) (db : Database) (l : Lease)
    → (request (create_lease payload id audit_id now tenant user) db).0 ≡ ok l
    → l ≡ new_lease tenant payload id
accepted_lease payload id audit_id now tenant user db l =
    create_rule payload id audit_id now tenant user
      (λ r. r.0 ≡ ok l → l ≡ new_lease tenant payload id) db (λ e h. cc h)
      (λ free h. sym (ok_injective h))

module _ (first second : LeaseCreate) (tenant : TenantContext) (user other : User)
    (id second_id audit_id second_audit_id : Uuid) (now : DateTime)
    (active : is_active first.status ≡ true) (second_active : is_active second.status ≡ true)
    (one_unit : second.unit_id ≡ first.unit_id)
    (overlap : date_ranges_overlap second.starts_on second.ends_on first.starts_on first.ends_on
      ≡ true) where
  -- The query of the second request finds the lease of the first.
  first_found : overlapping_lease_query (period tenant second) (new_lease tenant first id) ≡ true
  first_found =
      rw
        (
          query-eq-overlap (period tenant second) (new_lease tenant first id),
          active,
          overlap,
          one_unit,
          ==_self tenant.organization_id,
          ==_self first.unit_id,
        )
        refl

  -- The database that the first request leaves.
  after_first :
      (db : Database) (l : Lease)
      → (request (create_lease first id audit_id now tenant user) db).0 ≡ ok l
      → (request (create_lease first id audit_id now tenant user) db).1
        ≡ with_lease first id audit_id now tenant user db
  after_first db l =
      create_rule first id audit_id now tenant user
        (λ r. r.0 ≡ ok l → r.1 ≡ with_lease first id audit_id now tenant user db) db (λ e h. cc h)
        (λ free h. refl)

  -- The second request is refused where the lease of the first is in the table.
  refused_after :
      (db : Database)
      → (e : Exception) × ((request
            (create_lease second second_id second_audit_id now tenant other)
            (with_lease first id audit_id now tenant user db)).0
          ≡ err e)
  refused_after db =
      create_rule second second_id second_audit_id now tenant other
        (λ r. (e : Exception) × (r.0 ≡ err e)) (with_lease first id audit_id now tenant user db)
        (λ e. (e, refl))
        (λ free.
          let nothing : in_the_way second second_id second_audit_id now tenant other
                (with_lease first id audit_id now tenant user db)
              ≡ [] =
            free second_active in
          absurd (cc (let p : new_lease tenant first id ∷ _ ≡ [] = rw first_found at nothing in p)))

  -- Of two requests for active leases of one unit whose periods overlap, each of which the same
  -- database accepts, the leases clash, and the second is refused where the first has committed.
  lease_race :
      (db : Database) (l m : Lease)
      → (request (create_lease first id audit_id now tenant user) db).0 ≡ ok l
      → (request (create_lease second second_id second_audit_id now tenant other) db).0 ≡ ok m
      → (clash m l ≡ true)
        × ((e : Exception) × ((request
                (create_lease second second_id second_audit_id now tenant other)
                (request (create_lease first id audit_id now tenant user) db).1).0
              ≡ err e))
  lease_race db l m made second_made = (
    rw
        (
          accepted_lease first id audit_id now tenant user db l made,
          accepted_lease second second_id second_audit_id now tenant other db m second_made,
          one_unit,
          active,
          second_active,
          overlap,
          ==_self tenant.organization_id,
          ==_self first.unit_id,
        )
        refl,
    rw (after_first db l made) (refused_after db),
  )
