-- ===== src/Isolation/Answers.antt =====
-- What a member reads, beside the rows of the organization.
use mytenancyplus.Prelude.{
  Uuid, Bool, true, false, ◌&&◌, ◌≡◌, ◌==◌, refl, ap, arith, String, Option, Option-cases, inl, inr,
  none, some,
}
use mytenancyplus.Prelude.Order.{order_by}
use mytenancyplus.Models.Lease.{is_active}
use mytenancyplus.Models.Content.{Document}
use mytenancyplus.Prelude.Tables.{take, scalar}
use mytenancyplus.Models.Organization.{User}
use mytenancyplus.Transaction.{Database, Action, request, ok}
use mytenancyplus.Tenancy.{TenantContext}
use mytenancyplus.Properties.{list_properties, list_units}
use mytenancyplus.Leases.Listing.{list_tenants, list_leases}
use mytenancyplus.Maintenance.Routes.{find_work_order, is_wanted}
use mytenancyplus.Maintenance.Listing.{list_work_orders, list_work_order_comments, is_comment_on}
use mytenancyplus.Billing.Listing.{read_subscription}
use mytenancyplus.Notifications.{
  list_notifications, unread_notification_count, list_audit_logs, received, is_received, is_unread,
  newest_first,
}
use mytenancyplus.Dashboard.{is_open, dashboard_summary}
use mytenancyplus.Documents.{find_document, is_document}
use mytenancyplus.Documents.Listing.{list_documents, is_listed}
use mytenancyplus.Organizations.Listing.{list_members, is_member_row}
use mytenancyplus.Isolation.{
  view, Reads, properties_listed, units_listed, tenants_listed, leases_listed, work_orders_listed,
  comments_listed, subscription_read, notifications_listed, unread_counted, audit_logs_listed,
  dashboard_shown, documents_listed, members_listed, document_found,
}
use mytenancyplus.Isolation.Rows.{select-join, select-own, scalar-own, count_where-own}

and_left : (b c : Bool) → b && c ≡ true → b ≡ true
and_left b c h = ground arith

and_right : (b c : Bool) → b && c ≡ true → c ≡ true
and_right b c h = ground arith

received-view :
    (tenant : TenantContext) (user : User) (unread_only : Bool) (db : Database)
    → received tenant user unread_only (view tenant.organization_id db)
      ≡ received tenant user unread_only db
received-view tenant user false db =
    select-own (λ n. n.organization_id == tenant.organization_id) (is_received tenant user)
      (λ x h. and_left _ _ h) db.notifications
received-view tenant user true db =
    select-own (λ n. n.organization_id == tenant.organization_id)
      (λ n. is_received tenant user n && is_unread n) (λ x h. and_left _ _ (and_left _ _ h))
      db.notifications

wanted-view :
    (tenant : TenantContext) (id : Uuid) (db : Database)
    → scalar (is_wanted tenant.organization_id id) (view tenant.organization_id db).work_orders
      ≡ scalar (is_wanted tenant.organization_id id) db.work_orders
wanted-view tenant id db =
    scalar-own (λ w. w.organization_id == tenant.organization_id)
      (is_wanted tenant.organization_id id) (λ x h. and_right _ _ h) db.work_orders

document-view :
    (tenant : TenantContext) (id : Uuid) (db : Database)
    → scalar (is_document tenant.organization_id id) (view tenant.organization_id db).documents
      ≡ scalar (is_document tenant.organization_id id) db.documents
document-view tenant id db =
    scalar-own (λ d. d.organization_id == tenant.organization_id)
      (is_document tenant.organization_id id) (λ x h. and_right _ _ h) db.documents

is_listed-own :
    (tenant : TenantContext) (resource_type : Option String) (resource_id : Option Uuid)
    (d : Document)
    → is_listed tenant resource_type resource_id d ≡ true
    → (d.organization_id == tenant.organization_id) ≡ true
is_listed-own tenant none none d h = h
is_listed-own tenant (some t) none d h = and_left _ _ h
is_listed-own tenant none (some id) d h = and_left _ _ h
is_listed-own tenant (some t) (some id) d h = and_left _ _ (and_left _ _ h)

-- The answer to a request that reads is the one that the rows of the member's organization give.
pub answers_own_rows :
    (tenant : TenantContext) (user : User) {A : Type 0} (m : Action A) (db : Database)
    → Reads tenant user A m
    → (request m (view tenant.organization_id db)).0 ≡ (request m db).0
unfolding list_properties list_units list_tenants list_leases list_work_orders
    list_work_order_comments read_subscription list_notifications unread_notification_count
    list_audit_logs dashboard_summary find_document list_documents find_work_order list_members
answers_own_rows tenant user m db (properties_listed text_before) =
    rw (select-own _ _ (λ x h. h) db.properties) refl
answers_own_rows tenant user m db (units_listed text_before) =
    rw (select-own _ _ (λ x h. h) db.units) refl
answers_own_rows tenant user m db (tenants_listed text_before) =
    rw (select-own _ _ (λ x h. h) db.tenant_profiles) refl
answers_own_rows tenant user m db leases_listed = rw (select-own _ _ (λ x h. h) db.leases) refl
answers_own_rows tenant user m db (work_orders_listed none) =
    rw (select-own _ _ (λ x h. h) db.work_orders) refl
answers_own_rows tenant user m db (work_orders_listed (some status)) =
    rw
      (select-own (λ w. w.organization_id == tenant.organization_id) _ (λ x h. and_left _ _ h)
        db.work_orders)
      refl
answers_own_rows tenant user m db (comments_listed id) =
    elim (Option-cases (scalar (is_wanted tenant.organization_id id) db.work_orders)) [
      | inl e ↦ rw (wanted-view tenant id db, e) refl
      | inr (w, e) ↦
          rw
            (
              wanted-view tenant id db,
              e,
              select-own (λ c. c.organization_id == tenant.organization_id)
                  (is_comment_on tenant id) (λ x h. and_right _ _ h) db.work_order_comments,
            )
            refl
    ]
answers_own_rows tenant user m db subscription_read =
    rw (scalar-own _ _ (λ x h. h) db.subscriptions) refl
answers_own_rows tenant user m db (notifications_listed unread_only limit) =
    ap (λ rows. ok (take limit (order_by newest_first rows)))
      (received-view tenant user unread_only db)
answers_own_rows tenant user m db unread_counted =
    rw
      (count_where-own (λ n. n.organization_id == tenant.organization_id) _
        (λ x h. and_left _ _ (and_left _ _ h)) db.notifications)
      refl
answers_own_rows tenant user m db (audit_logs_listed limit) =
    rw (select-own _ _ (λ x h. h) db.audit_logs) refl
answers_own_rows tenant user m db dashboard_shown =
    rw
      (
        count_where-own (λ p. p.organization_id == tenant.organization_id)
            (λ p. p.organization_id == tenant.organization_id) (λ x h. h) db.properties,
        count_where-own (λ u. u.organization_id == tenant.organization_id)
            (λ u. u.organization_id == tenant.organization_id) (λ x h. h) db.units,
        count_where-own (λ l. l.organization_id == tenant.organization_id)
            (λ l. l.organization_id == tenant.organization_id && is_active l.status)
            (λ x h. and_left _ _ h) db.leases,
        count_where-own (λ w. w.organization_id == tenant.organization_id)
            (λ w. w.organization_id == tenant.organization_id && is_open w.status)
            (λ x h. and_left _ _ h) db.work_orders,
        count_where-own (λ n. n.organization_id == tenant.organization_id)
            (λ n. is_received tenant user n && is_unread n) (λ x h. and_left _ _ (and_left _ _ h))
            db.notifications,
        scalar-own (λ s. s.organization_id == tenant.organization_id)
            (λ s. s.organization_id == tenant.organization_id) (λ x h. h) db.subscriptions,
      )
      refl
answers_own_rows tenant user m db (documents_listed resource_type resource_id) =
    rw
      (select-own (λ d. d.organization_id == tenant.organization_id)
        (is_listed tenant resource_type resource_id)
        (λ x h. is_listed-own tenant resource_type resource_id x h) db.documents)
      refl
answers_own_rows tenant user m db (members_listed text_before) =
    rw
      (select-join (λ m. m.organization_id == tenant.organization_id) (is_member_row tenant)
        (λ m u h. and_right _ _ h) db.memberships db.users)
      refl
answers_own_rows tenant user m db (document_found id) =
    elim (Option-cases (scalar (is_document tenant.organization_id id) db.documents)) [
      | inl e ↦ rw (document-view tenant id db, e) refl
      | inr (d, e) ↦ rw (document-view tenant id db, e) refl
    ]
