-- ===== src/Models/Organization.antt =====
-- app/models/organization.py and app/models/user.py
use mytenancyplus.Prelude.{Uuid, DateTime, String, Bool, true, false, Option}

pub data MembershipRole : Type 0 where
  owner admin manager viewer : MembershipRole

pub data MembershipStatus : Type 0 where
  active suspended : MembershipStatus

-- Membership.status == MembershipStatus.ACTIVE
abbrev pub is_active : MembershipStatus → Bool
is_active active = true
is_active suspended = false

-- The test `==` of two roles.
abbrev pub same_role : MembershipRole → MembershipRole → Bool
same_role owner owner = true
same_role admin admin = true
same_role manager manager = true
same_role viewer viewer = true
same_role _ _ = false

-- MembershipRole.value
abbrev pub role_value : MembershipRole → String
role_value owner = "owner"
role_value admin = "admin"
role_value manager = "manager"
role_value viewer = "viewer"

pub record User : Type 0 where
  pub id : Uuid
  pub email : String
  pub full_name : String
  pub password_hash : String
  pub is_active : Bool

pub record Organization : Type 0 where
  pub id : Uuid
  pub name : String
  pub slug : String
  pub created_by_id : Uuid
  pub created_at : DateTime

pub record Membership : Type 0 where
  pub id : Uuid
  pub organization_id : Uuid
  pub user_id : Uuid
  pub role : MembershipRole
  pub status : MembershipStatus

pub record Invitation : Type 0 where
  pub id : Uuid
  pub organization_id : Uuid
  pub email : String
  pub role : MembershipRole
  pub token_hash : String
  pub invited_by_id : Uuid
  pub expires_at : DateTime
  pub accepted_at : Option DateTime
