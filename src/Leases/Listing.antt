-- ===== src/Leases/Listing.antt =====
-- The listings of app/api/routes/leases.py. `text_before` is the order in which the database sorts
-- texts.
use mytenancyplus.Prelude.{String, Bool, true, ◌&&◌, ◌==◌, leb, List, if◌then◌else◌}
use mytenancyplus.Prelude.Tables.{select}
use mytenancyplus.Prelude.Order.{order_by}
use mytenancyplus.Models.Lease.{Lease, TenantProfile}
use mytenancyplus.Transaction.{Action, gets}
use mytenancyplus.Tenancy.{TenantContext}

-- order_by(last_name, first_name): the first names tell equal last names apart.
abbrev pub by_full_name : (String → String → Bool) → TenantProfile → TenantProfile → Bool
by_full_name text_before p q =
    text_before p.last_name q.last_name
    && (if text_before q.last_name p.last_name then text_before p.first_name q.first_name else true)

unfoldable pub list_tenants : (String → String → Bool) → TenantContext → Action (List TenantProfile)
list_tenants text_before tenant = gets (λ db.
    order_by (by_full_name text_before)
      (select (λ p. p.organization_id == tenant.organization_id) db.tenant_profiles))

-- starts_on.desc()
abbrev pub latest_start_first : Lease → Lease → Bool
latest_start_first l m = leb m.starts_on l.starts_on

unfoldable pub list_leases : TenantContext → Action (List Lease)
list_leases tenant = gets (λ db.
    order_by latest_start_first
      (select (λ l. l.organization_id == tenant.organization_id) db.leases))
