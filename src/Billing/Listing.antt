-- ===== src/Billing/Listing.antt =====
-- read_subscription of app/api/routes/billing.py.
use mytenancyplus.Prelude.{◌==◌, Option}
use mytenancyplus.Prelude.Tables.{scalar}
use mytenancyplus.Models.Billing.{Subscription}
use mytenancyplus.Transaction.{Action, gets}
use mytenancyplus.Tenancy.{TenantContext}

unfoldable pub read_subscription : TenantContext → Action (Option Subscription)
read_subscription tenant =
    gets (λ db. scalar (λ s. s.organization_id == tenant.organization_id) db.subscriptions)
