-- ===== src/Leases/Occupancy.antt =====
-- Which leases POST /leases accepts, and that no unit is let twice on one day.
use mytenancyplus.Prelude.{
  is_some, Uuid, DateTime, ◌≡◌, refl, Bool, Bool-cases, true, false, ◌&&◌, ◌==◌, some, List, [],
  ◌∷◌, arith, inl, inr,
}
use mytenancyplus.Prelude.Tables.{All-Has, Has-All, All, scalar, select}
use mytenancyplus.Models.Organization.{User}
use mytenancyplus.Models.Lease.{Lease, TenantProfile, is_active, status_value}
use mytenancyplus.Models.Estate.{EstateUnit}
use mytenancyplus.Models.Audit.{str}
use mytenancyplus.Audit.{audit_row}
use mytenancyplus.Transaction.{
  pure, Database, AsyncSession, Action, Result, Exception, ok, err, multiple_results_found, request,
  close_session, begin, continue,
}
use mytenancyplus.Transaction.Rules.{or_raise_rule}
use mytenancyplus.Tenancy.{TenantContext}
use mytenancyplus.Leases.{
  LeaseCreate, period, new_lease, date_ranges_overlap, overlapping_lease_query,
  has_overlapping_active_lease, scalar_one_or_none, lease_conflict, create_lease, conflicts,
}
use mytenancyplus.Leases.Overlap.{query-eq-overlap}

-- Two active leases of one unit whose periods overlap.
abbrev pub clash : Lease → Lease → Bool
clash l m =
    m.organization_id == l.organization_id
    && m.unit_id == l.unit_id
    && is_active l.status
    && is_active m.status
    && date_ranges_overlap l.starts_on l.ends_on m.starts_on m.ends_on

-- No two leases of the table clash.
abbrev pub NoClash : List Lease → Type 0
NoClash [] = Unit
NoClash (l ∷ ls) = All (λ m. clash l m ≡ false) ls × NoClash ls

-- Nothing was found, so no row passes.
none_selected :
    {A : Type 0} (q : A → Bool) (xs : List A) → select q xs ≡ [] → All (λ x. q x ≡ false) xs
none_selected q [] h = tt
none_selected q (x ∷ xs) h = elim (Bool-cases (q x)) [
  | inl e ↦ cc (let p : x ∷ select q xs ≡ [] = rw e at h in p)
  | inr e ↦ (e, none_selected q xs (rw e at h))
]

module _ (payload : LeaseCreate) (id audit_id : Uuid) (now : DateTime) (tenant : TenantContext)
    (user : User) where
  -- A lease that is not active clashes with nothing, and an active one only with rows that the
  -- query finds.
  new_clash :
      (l : Lease)
      → (is_active payload.status ≡ true
          → overlapping_lease_query (period tenant payload) l ≡ false)
      → clash (new_lease tenant payload id) l ≡ false
  new_clash l h = elim (Bool-cases (is_active payload.status)) [
    | inl a ↦ ground (arith, query-eq-overlap (period tenant payload) l, h a)
    | inr a ↦ ground arith
  ]

  -- The active leases in the way of the new one.
  abbrev pub in_the_way : Database → List Lease
  in_the_way db = select (overlapping_lease_query (period tenant payload)) db.leases

  pub conflicts_rule :
      (P : Result Lease × AsyncSession → Type 0) (s : AsyncSession) (f : Bool → Action Lease)
      → (is_active payload.status ≡ true
          → (x y : Lease) (rest : List Lease) → in_the_way s.working ≡ x ∷ y ∷ rest
          → P (err multiple_results_found, s))
      → (is_active payload.status ≡ true
          → (x : Lease) → in_the_way s.working ≡ x ∷ []
          → P (f true s))
      → ((is_active payload.status ≡ true → in_the_way s.working ≡ []) → P (f false s))
      → P (continue f (conflicts tenant payload s))
  unfolding has_overlapping_active_lease
  conflicts_rule P s f many one free = elim (Bool-cases (is_active payload.status)) [
    | inl a ↦ rw a (count a (in_the_way s.working) refl)
    | inr a ↦ rw a (free (λ b. cc))
  ]
    where
      count :
          is_active payload.status ≡ true
          → (rows : List Lease) → in_the_way s.working ≡ rows
          → P (continue f (continue (λ o. pure (is_some o)) (scalar_one_or_none rows, s)))
      count a [] e = free (λ _. e)
      count a (x ∷ []) e = one a x e
      count a (x ∷ y ∷ rest) e = many a x y rest e

  -- The database with the new lease and its audit entry.
  abbrev pub with_lease : Database → Database
  with_lease db = record db {
    leases = new_lease tenant payload id ∷ db.leases;
    audit_logs =
        audit_row audit_id now (record {
          organization_id = tenant.organization_id;
          actor_user_id = user.id;
          action = "lease.created";
          resource_type = "lease";
          resource_id = id;
          details = ("status", str (status_value payload.status)) ∷ [];
        })
        ∷ db.audit_logs;
  }

  pub create_rule :
      (P : Result Lease × Database → Type 0) (db : Database)
      → ((e : Exception) → P (err e, db))
      → ((is_active payload.status ≡ true → in_the_way db ≡ [])
          → P (ok (new_lease tenant payload id), with_lease db))
      → P (request (create_lease payload id audit_id now tenant user) db)
  unfolding create_lease
  create_rule P db refused accepted =
      or_raise_rule Q (scalar _ db.units) _ _ (begin db) (λ _. refused _)
        λ unit _.
          or_raise_rule Q (scalar _ db.tenant_profiles) _ _ (begin db) (λ _. refused _)
            λ profile _.
              conflicts_rule Q (begin db) _ (λ _ _ _ _ _. refused _) (λ _ _ _. refused _) accepted
    where
      Q : Result Lease × AsyncSession → Type 0
      Q r = P (close_session r)

  -- Whatever is posted, no two active leases of one unit come to overlap.
  pub create_lease-NoClash :
      (db : Database)
      → NoClash db.leases
      → NoClash (request (create_lease payload id audit_id now tenant user) db).1.leases
  create_lease-NoClash db h =
      create_rule (λ r. NoClash r.1.leases) db (λ _. h)
        λ free. (
          Has-All _ db.leases (λ l m.
              new_clash l (λ a. All-Has _ db.leases (none_selected _ db.leases (free a)) m)),
          h,
        )

  -- A lease that is refused, for whatever reason, changes nothing.
  pub create_lease_refused :
      (db : Database) (e : Exception)
      → (request (create_lease payload id audit_id now tenant user) db).0 ≡ err e
      → (request (create_lease payload id audit_id now tenant user) db).1 ≡ db
  create_lease_refused db e =
      create_rule (λ r. r.0 ≡ err e → r.1 ≡ db) db (λ _ _. refl) (λ _ h. cc h)

  -- The answer to an active lease, by the leases in its way.
  abbrev pub verdict : List Lease → Result Lease
  verdict [] = ok (new_lease tenant payload id)
  verdict (_ ∷ []) = err lease_conflict
  verdict (_ ∷ _ ∷ _) = err multiple_results_found

  -- An active lease of a unit and a tenant of the organization is created if no active lease of the
  -- unit overlaps it, and refused with 409 if one does; where two or more do, the exception of the
  -- query escapes the route in place of the 409.
  pub create_active :
      (db : Database) {unit : EstateUnit} {profile : TenantProfile}
      → is_active payload.status ≡ true
      → scalar
          (λ u. u.id == payload.unit_id && u.organization_id == tenant.organization_id)
          db.units
        ≡ some unit
      → scalar
          (λ t. t.id == payload.tenant_id && t.organization_id == tenant.organization_id)
          db.tenant_profiles
        ≡ some profile
      → (request (create_lease payload id audit_id now tenant user) db).0 ≡ verdict (in_the_way db)
  unfolding create_lease
  create_active db a u t =
      rw (u, t)
        (conflicts_rule (λ r. (close_session r).0 ≡ verdict (in_the_way db)) (begin db) _
          (λ _ x y rest e. rw e) (λ _ x e. rw e) (λ free. rw (free a)))
