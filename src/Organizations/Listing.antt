-- ===== src/Organizations/Listing.antt =====
-- The listings of app/api/routes/organizations.py, which join two tables. `text_before` is the order
-- in which the database sorts texts.
use mytenancyplus.Prelude.{Uuid, String, Bool, ◌&&◌, ◌==◌, List, map}
use mytenancyplus.Prelude.Tables.{select, join}
use mytenancyplus.Prelude.Order.{order_by}
use mytenancyplus.Models.Organization.{
  User, Organization, Membership, MembershipRole, MembershipStatus,
}
use mytenancyplus.Transaction.{Action, gets}
use mytenancyplus.Tenancy.{TenantContext}
use mytenancyplus.Organizations.{OrganizationSummary}

-- An organization of the user, with the membership.
abbrev pub is_mine : User → Organization × Membership → Bool
is_mine user (o, m) = m.organization_id == o.id && m.user_id == user.id

abbrev pub by_name :
    (String → String → Bool) → Organization × Membership → Organization × Membership → Bool
by_name text_before (o, _) (p, _) = text_before o.name p.name

abbrev pub summary : Organization × Membership → OrganizationSummary
summary (o, m) = record { organization = o; role = m.role }

unfoldable pub list_organizations :
    (String → String → Bool) → User → Action (List OrganizationSummary)
list_organizations text_before user = gets (λ db.
    map summary (
      order_by (by_name text_before)
        (select (is_mine user) (join db.organizations db.memberships))))

pub record MembershipDetailResponse : Type 0 where
  pub organization_id : Uuid
  pub user_id : Uuid
  pub email : String
  pub full_name : String
  pub role : MembershipRole
  pub status : MembershipStatus

abbrev pub detail : Membership × User → MembershipDetailResponse
detail (m, u) = record {
  organization_id = m.organization_id;
  user_id = u.id;
  email = u.email;
  full_name = u.full_name;
  role = m.role;
  status = m.status;
}

abbrev pub is_member_row : TenantContext → Membership × User → Bool
is_member_row tenant (m, u) = u.id == m.user_id && m.organization_id == tenant.organization_id

abbrev pub by_full_name : (String → String → Bool) → Membership × User → Membership × User → Bool
by_full_name text_before (_, u) (_, v) = text_before u.full_name v.full_name

unfoldable pub list_members :
    (String → String → Bool) → TenantContext → Action (List MembershipDetailResponse)
list_members text_before tenant = gets (λ db. map detail (
    order_by (by_full_name text_before)
      (select (is_member_row tenant) (join db.memberships db.users))))
