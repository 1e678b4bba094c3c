-- ===== src/Tenancy.antt =====
-- app/api/dependencies.py: who makes a request, for which organization, and with which role. The
-- `set_config` of PostgreSQL's row-level security is not modelled: every query below carries its
-- own `organization_id`.
pub mod Access
pub mod Examples
use mytenancyplus.Prelude.{
  Uuid, DateTime, String, Bool, true, false, not, ◌&&◌, ◌||◌, List, [], ◌∷◌, ◌==◌, if◌then◌else◌,
}
use mytenancyplus.Prelude.Tables.{scalar}
use mytenancyplus.Models.Organization.{
  User, Membership, MembershipRole, is_active, same_role, owner, admin, manager,
}
use mytenancyplus.Transaction.{
  Database, Action, Result, ok, err, Exception, http_exception, invalid_token, pure, raise, gets,
  or_raise, raise_if, ◌>>=◌, ◌>>◌,
}
use mytenancyplus.Config.{Settings}
use mytenancyplus.Security.{decode_access_token}
use mytenancyplus.Security.Claims.{Jwt, Rendering}

pub record TenantContext : Type 0 where
  pub organization_id : Uuid
  pub user_id : Uuid
  pub role : MembershipRole

abbrev pub credentials_error : Exception
credentials_error = http_exception 401 "Invalid authentication credentials"

-- except InvalidTokenError: raise credentials_error
abbrev pub or_unauthorized : Result Uuid → Action Uuid
or_unauthorized (ok user_id) = pure user_id
or_unauthorized (err (invalid_token _)) = raise credentials_error
or_unauthorized (err e) = raise e

-- The user whom the token names, from the decoded token on.
unfoldable pub current_user : Result Uuid → Action User
current_user decoded = do
  user_id ← or_unauthorized decoded
  user ← or_raise (← gets (λ db. scalar (λ u. u.id == user_id) db.users)) credentials_error
  raise_if (not user.is_active) credentials_error
  pure user

unfoldable pub get_current_user :
    {Token : Type 0} → Rendering → Jwt Token → Token → Settings → DateTime → Action User
unfolding current_user
get_current_user runtime jwt token settings now =
    current_user (decode_access_token runtime jwt token settings now)

-- An active membership of this user in this organization.
abbrev pub admits : Uuid → Uuid → Membership → Bool
admits organization_id user_id m =
    m.organization_id == organization_id && m.user_id == user_id && is_active m.status

unfoldable pub get_tenant_context : User → Uuid → Action TenantContext
get_tenant_context user organization_id = do
  membership ←
      or_raise (← gets (λ db. scalar (admits organization_id user.id) db.memberships))
        (http_exception 403 "Organization access denied")
  pure (record { organization_id = organization_id; user_id = user.id; role = membership.role })

-- context.role in roles
abbrev pub has_role : MembershipRole → List MembershipRole → Bool
has_role role [] = false
has_role role (r ∷ roles) = same_role role r || has_role role roles

unfoldable pub require_roles : List MembershipRole → TenantContext → Action TenantContext
require_roles roles context = do
  raise_if (not (has_role context.role roles))
      (http_exception 403 "Your organization role does not permit this action")
  pure context

-- The `write_roles` of the routes.
abbrev pub write_roles : List MembershipRole
write_roles = owner ∷ admin ∷ manager ∷ []

-- What a request carries: the bearer token, as decode_access_token reads it, and X-Organization-ID.
pub record Credentials : Type 0 where
  pub decoded : Result Uuid
  pub organization_id : Uuid

-- A route with `dependencies=[require_roles(...)]`, `Tenant` and `CurrentUser`.
unfoldable pub restricted :
    {A : Type 0} → List MembershipRole → (TenantContext → User → Action A) → Credentials → Action A
restricted roles route credentials = do
  user ← current_user credentials.decoded
  tenant ← get_tenant_context user credentials.organization_id
  require_roles roles tenant
  route tenant user

-- A route with `Tenant` and `CurrentUser` alone.
unfoldable pub tenant_route :
    {A : Type 0} → (TenantContext → User → Action A) → Credentials → Action A
tenant_route route credentials = do
  user ← current_user credentials.decoded
  tenant ← get_tenant_context user credentials.organization_id
  route tenant user
