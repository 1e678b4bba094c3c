-- ===== src/Documents/Listing.antt =====
-- The listing of app/api/routes/documents.py.
use mytenancyplus.Prelude.{Uuid, String, Bool, ◌&&◌, ◌==◌, leb, str_eq, Option, none, some, List}
use mytenancyplus.Prelude.Tables.{select}
use mytenancyplus.Prelude.Order.{order_by}
use mytenancyplus.Models.Content.{Document}
use mytenancyplus.Transaction.{Action, gets}
use mytenancyplus.Tenancy.{TenantContext}

-- created_at.desc()
abbrev pub newest_first : Document → Document → Bool
newest_first c d = leb d.created_at c.created_at

-- The query, with the filters that are asked for.
abbrev pub is_listed : TenantContext → Option String → Option Uuid → Document → Bool
is_listed tenant none none d = d.organization_id == tenant.organization_id
is_listed tenant (some t) none d =
    d.organization_id == tenant.organization_id && str_eq d.resource_type t
is_listed tenant none (some id) d =
    d.organization_id == tenant.organization_id && d.resource_id == id
is_listed tenant (some t) (some id) d =
    d.organization_id == tenant.organization_id && str_eq d.resource_type t && d.resource_id == id

unfoldable pub list_documents : TenantContext → Option String → Option Uuid → Action (List Document)
list_documents tenant resource_type resource_id =
    gets (λ db.
      order_by newest_first (select (is_listed tenant resource_type resource_id) db.documents))
