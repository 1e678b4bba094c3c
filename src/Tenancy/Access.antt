-- ===== src/Tenancy/Access.antt =====
-- Who gets through the dependencies of a route.
use mytenancyplus.Prelude.{Uuid, ◌≡◌, refl, ◌⊎◌, inl, inr, true, not, List, arith, ◌==◌}
use mytenancyplus.Prelude.Tables.{Has, scalar, scalar_passes}
use mytenancyplus.Models.Organization.{User, Membership, MembershipRole, active}
use mytenancyplus.Transaction.{
  request, close_session, begin, continue, Database, AsyncSession, Action, Result, ok, err,
  Exception, invalid_token,
}
use mytenancyplus.Transaction.Rules.{or_raise_rule, raise_if_rule}
use mytenancyplus.Tenancy.{
  TenantContext, Credentials, admits, has_role, current_user, get_tenant_context, require_roles,
  restricted,
}

-- The user may act in the tenant: the token names the user, who is active and has an active
-- membership of the requested organization, with the role of the context.
pub record IsMember (db : Database) (credentials : Credentials) (tenant : TenantContext)
    (user : User) : Type 0 where
  pub named : credentials.decoded ≡ ok user.id
  pub known : Has user db.users
  pub enabled : user.is_active ≡ true
  pub requested : tenant.organization_id ≡ credentials.organization_id
  pub acting : tenant.user_id ≡ user.id
  pub membership : Membership
  pub joined : Has membership db.memberships
  pub in_organization : membership.organization_id ≡ tenant.organization_id
  pub of_user : membership.user_id ≡ user.id
  pub is_active : membership.status ≡ active
  pub with_role : membership.role ≡ tenant.role

module _ {A : Type 0} (P : Result A × AsyncSession → Type 0) (s : AsyncSession) where
  current_user_rule :
      (decoded : Result Uuid) (f : User → Action A)
      → ((e : Exception) → P (err e, s))
      → ((user : User)
          → decoded ≡ ok user.id
          → Has user s.working.users
          → user.is_active ≡ true
          → P (f user s))
      → P (continue f (current_user decoded s))
  unfolding current_user
  current_user_rule (err (invalid_token m)) f refused passed = refused _
  current_user_rule (err e) f refused passed = refused _
  current_user_rule (ok user_id) f refused passed =
      or_raise_rule (λ r. P (continue f r)) (scalar (λ u. u.id == user_id) s.working.users) _ _ s
        (λ _. refused _)
        λ user found.
          raise_if_rule (λ r. P (continue f r)) (not user.is_active) _ _ s (λ _. refused _)
            λ enabled.
              let facts = scalar_passes _ s.working.users found in
              passed user (ground (arith, facts.0)) facts.1 (ground arith)

  get_tenant_context_rule :
      (user : User) (organization_id : Uuid) (f : TenantContext → Action A)
      → ((e : Exception) → P (err e, s))
      → ((membership : Membership)
          → Has membership s.working.memberships
          → admits organization_id user.id membership ≡ true
          → P (
              f
                (record {
                  organization_id = organization_id;
                  user_id = user.id;
                  role = membership.role;
                })
                s))
      → P (continue f (get_tenant_context user organization_id s))
  unfolding get_tenant_context
  get_tenant_context_rule user organization_id f refused passed =
      or_raise_rule (λ r. P (continue f r))
        (scalar (admits organization_id user.id) s.working.memberships) _ _ s (λ _. refused _)
        λ membership found.
          let facts = scalar_passes _ s.working.memberships found in
          passed membership facts.1 facts.0

  -- What holds of every refusal that leaves the session alone, and of the route run for any member
  -- with a permitted role, holds of the restricted route.
  pub restricted_rule :
      (roles : List MembershipRole) (route : TenantContext → User → Action A)
      (credentials : Credentials)
      → ((e : Exception) → P (err e, s))
      → ((tenant : TenantContext) (user : User)
          → IsMember s.working credentials tenant user
          → has_role tenant.role roles ≡ true
          → P (route tenant user s))
      → P (restricted roles route credentials s)
  unfolding restricted require_roles
  restricted_rule roles route credentials refused passed =
      current_user_rule credentials.decoded _ refused λ user named known enabled.
        get_tenant_context_rule user credentials.organization_id _ refused
          λ membership joined admitted.
            raise_if_rule
              (λ r. P (
                continue
                  (λ (_ : TenantContext).
                    route
                      (record {
                        organization_id = credentials.organization_id;
                        user_id = user.id;
                        role = membership.role;
                      })
                      user)
                  r))
              (not (has_role membership.role roles)) _ _ s (λ _. refused _)
              λ permitted.
                passed _ user
                  (record {
                    named = named;
                    known = known;
                    enabled = enabled;
                    requested = refl;
                    acting = refl;
                    membership = membership;
                    joined = joined;
                    in_organization = ground arith;
                    of_user = ground arith;
                    is_active = ground arith;
                    with_role = refl;
                  })
                  (ground arith)

-- A restricted request leaves the database as it was, or a member of the organization with one of
-- the roles made it.
pub restricted_guards :
    {A : Type 0} (roles : List MembershipRole) (route : TenantContext → User → Action A)
    (credentials : Credentials) (db : Database)
    → ((request (restricted roles route credentials) db).1 ≡ db)
      ⊎ ((tenant : TenantContext) × (user : User) × IsMember db credentials tenant user
          × (has_role tenant.role roles ≡ true))
restricted_guards roles route credentials db =
    restricted_rule
      (λ r.
        ((close_session r).1 ≡ db)
        ⊎ ((tenant : TenantContext) × (user : User) × IsMember db credentials tenant user
            × (has_role tenant.role roles ≡ true)))
      (begin db) roles route credentials (λ e. inl refl)
      (λ tenant user member permitted. inr (tenant, user, member, permitted))
