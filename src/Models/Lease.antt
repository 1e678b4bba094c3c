-- ===== src/Models/Lease.antt =====
-- app/models/lease.py. Money is a number of cents: the columns are `Numeric(14, 2)`.
use mytenancyplus.Prelude.{ℕ, Uuid, Date, String, Bool, true, false, Option}

pub data LeaseStatus : Type 0 where
  draft active ended cancelled : LeaseStatus

-- Lease.status == LeaseStatus.ACTIVE
abbrev pub is_active : LeaseStatus → Bool
is_active active = true
is_active _ = false

-- LeaseStatus.value
abbrev pub status_value : LeaseStatus → String
status_value draft = "draft"
status_value active = "active"
status_value ended = "ended"
status_value cancelled = "cancelled"

pub record TenantProfile : Type 0 where
  pub id : Uuid
  pub organization_id : Uuid
  pub first_name : String
  pub last_name : String
  pub email : String
  pub phone : Option String

pub record Lease : Type 0 where
  pub id : Uuid
  pub organization_id : Uuid
  pub unit_id : Uuid
  pub tenant_id : Uuid
  pub starts_on : Date
  pub ends_on : Option Date
  pub monthly_rent : ℕ
  pub deposit : ℕ
  pub status : LeaseStatus
