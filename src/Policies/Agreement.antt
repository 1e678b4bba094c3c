-- ===== src/Policies/Agreement.antt =====
-- Row-level security beside the conditions of the queries.
use mytenancyplus.Prelude.{Uuid, ◌≡◌, refl, sym, ap, ◌∙◌, some}
use mytenancyplus.Models.Organization.{User}
use mytenancyplus.Transaction.{Database, Action, request}
use mytenancyplus.Tenancy.{TenantContext}
use mytenancyplus.Isolation.{view, Reads}
use mytenancyplus.Isolation.Rows.{select-own}
use mytenancyplus.Isolation.Answers.{answers_own_rows}
use mytenancyplus.Policies.{secure_initial, secure_operations, secured}

-- An organization sees the same with the policies as without.
view-secured : (o : Uuid) (db : Database) → view o (secured (some o) db) ≡ view o db
unfolding secure_initial secure_operations
view-secured o db =
    rw
      (
        select-own _ _ (λ x h. h) db.properties,
        select-own _ _ (λ x h. h) db.units,
        select-own _ _ (λ x h. h) db.tenant_profiles,
        select-own _ _ (λ x h. h) db.leases,
        select-own _ _ (λ x h. h) db.invitations,
        select-own _ _ (λ x h. h) db.audit_logs,
        select-own _ _ (λ x h. h) db.subscriptions,
        select-own _ _ (λ x h. h) db.work_orders,
        select-own _ _ (λ x h. h) db.work_order_comments,
        select-own _ _ (λ x h. h) db.documents,
        select-own _ _ (λ x h. h) db.notifications,
      )
      refl

-- With the setting that get_tenant_context makes, row-level security hides no row from a request
-- that reads: the answer is the one that the queries give without it.
pub answers_secured :
    (tenant : TenantContext) (user : User) {A : Type 0} (m : Action A) (db : Database)
    → Reads tenant user A m
    → (request m (secured (some tenant.organization_id) db)).0 ≡ (request m db).0
answers_secured tenant user m db r =
    sym (answers_own_rows tenant user m (secured (some tenant.organization_id) db) r)
    ∙ (ap (λ seen. (request m seen).0) (view-secured tenant.organization_id db)
        ∙ answers_own_rows tenant user m db r)
