-- ===== src/Maintenance/Updates.antt =====
-- What PATCH /work-orders/{id} and POST /work-orders do to the work orders.
use mytenancyplus.Prelude.{
  Uuid, DateTime, ◌≡◌, ◌≢◌, refl, sym, ◌∙◌, some, [], ◌∷◌, arith, ◌==◌, ◌⊎◌, subst,
}
use mytenancyplus.Prelude.Tables.{
  All, All-Has, Has-All, All-update_where, scalar, scalar_passes, select,
}
use mytenancyplus.Prelude.Keys.{IsKey, key_unique}
use mytenancyplus.Models.Organization.{User}
use mytenancyplus.Models.Maintenance.{WorkOrder, status_value}
use mytenancyplus.Transaction.{Database, Exception, err, ok, request}
use mytenancyplus.Tenancy.{TenantContext}
use mytenancyplus.Maintenance.Lifecycle.{Moves, IsCoherent}
use mytenancyplus.Maintenance.Routes.{
  WorkOrderUpdate, NewIds, is_wanted, set_priority, update_work_order,
}
use mytenancyplus.Maintenance.Notices.{ChangeTells, notified-ChangeTells, IsChanged}
use mytenancyplus.Transaction.Rules.{ok_injective}
use mytenancyplus.Models.Audit.{str}
use mytenancyplus.Maintenance.Outcome.{
  Moved, updated_row, saved, given, after_update, update_rule, update_rule_given,
}
use mytenancyplus.Maintenance.Rows.{
  same_identity, saved-saved, select-saved, scalar-saved, status_after, row_identity,
  row-IsCoherent, updated-IsChanged,
}

module _ (id : Uuid) (payload : WorkOrderUpdate) (ids : NewIds) (now : DateTime)
    (tenant : TenantContext) (user : User) (db : Database) where
  -- An update that is refused leaves the database as it was, whatever it had written before.
  pub update_refused :
      (e : Exception)
      → (request (update_work_order id payload ids now tenant user) db).0 ≡ err e
      → (request (update_work_order id payload ids now tenant user) db).1 ≡ db
  update_refused e =
      update_rule id payload ids now tenant user (λ r. r.0 ≡ err e → r.1 ≡ db) db (λ _ _. refl)
        (λ w moved found m h. cc)

  -- An update keeps the time stamps of every work order in step with its status.
  pub update-IsCoherent :
      All IsCoherent db.work_orders
      → All IsCoherent (request (update_work_order id payload ids now tenant user) db).1.work_orders
  update-IsCoherent h =
      update_rule id payload ids now tenant user (λ r. All IsCoherent r.1.work_orders) db (λ _. h)
        λ w moved found m.
          let (row, prior) =
            row-IsCoherent payload w moved now m
              (All-Has IsCoherent db.work_orders h (scalar_passes _ db.work_orders found).1) in
          All-update_where IsCoherent _ _ _ (λ _ _ _. row)
            (All-update_where IsCoherent _ _ db.work_orders (λ _ _ _. prior) h)

  -- The two writes of an update, seen by another organization.
  pub select-updated_row :
      (other : Uuid)
      → other ≢ tenant.organization_id
      → IsKey (λ (w : WorkOrder). w.id) db.work_orders
      → (w moved : WorkOrder) → scalar (is_wanted tenant.organization_id id) db.work_orders ≡ some w
      → Moved w now moved
      → select
          (λ w. w.organization_id == other)
          (saved
            (updated_row payload moved)
            (saved (set_priority payload.priority moved) db.work_orders))
        ≡ select (λ w. w.organization_id == other) db.work_orders
  select-updated_row other apart key w moved found m =
      let (wanted, member) = scalar_passes _ db.work_orders found in
      let (same_id, same_organization) = same_identity w moved now m in
      let (row_id, row_organization, prior_id, _) = row_identity payload moved in
      rw
        (saved-saved (set_priority payload.priority moved) (updated_row payload moved)
          db.work_orders (prior_id ∙ sym row_id))
        (select-saved _ (updated_row payload moved) db.work_orders (ground arith) (
          Has-All _ db.work_orders λ x x_member e.
            let same : x ≡ w =
              key_unique _ db.work_orders key x_member member (e ∙ row_id ∙ same_id) in
            rw same (ground arith)))

  -- An update leaves the work orders of every other organization alone: a query for them has the
  -- result that it had. The ids are a primary key.
  pub update_isolated :
      (other : Uuid)
      → other ≢ tenant.organization_id
      → IsKey (λ (w : WorkOrder). w.id) db.work_orders
      → select
          (λ w. w.organization_id == other)
          (request (update_work_order id payload ids now tenant user) db).1.work_orders
        ≡ select (λ w. w.organization_id == other) db.work_orders
  update_isolated other apart key =
      update_rule id payload ids now tenant user
        (λ r.
          select (λ w. w.organization_id == other) r.1.work_orders
          ≡ select (λ w. w.organization_id == other) db.work_orders)
        db (λ _. refl) λ w moved found m. select-updated_row other apart key w moved found m

  -- What is committed with the row: the query finds it, and the audit log has one entry more.
  pub record HasUpdate (w' : WorkOrder) (after : Database) : Type 0 where
    pub row : scalar (is_wanted tenant.organization_id id) after.work_orders ≡ some w'
    pub audited :
        after.audit_logs
        ≡ record {
          id = ids.audit;
          organization_id = tenant.organization_id;
          actor_user_id = user.id;
          action = "work_order.updated";
          resource_type = "work_order";
          resource_id = w'.id;
          details = ("status", str (status_value w'.status)) ∷ [];
          created_at = now;
        }
          ∷ db.audit_logs
    pub told :
        ChangeTells tenant ids now user w' db.notifications payload.assigned_to_id
          after.notifications
    pub before : WorkOrder
    pub found : scalar (is_wanted tenant.organization_id id) db.work_orders ≡ some before
    pub changed : IsChanged payload before w'
    pub moved : (w'.status ≡ before.status) ⊎ Moves before.status w'.status

  updated-HasUpdate :
      (w moved : WorkOrder)
      → scalar (is_wanted tenant.organization_id id) db.work_orders ≡ some w
      → Moved w now moved
      → moved.status ≡ given payload.status w.status
      → HasUpdate (updated_row payload moved) (after_update id payload ids now tenant user db moved)
  updated-HasUpdate w moved found m asked =
      let (wanted, member) = scalar_passes _ db.work_orders found in
      let (same_id, same_organization) = same_identity w moved now m in
      let (row_id, row_organization, prior_id, row_status) = row_identity payload moved in
      record {
        row =
            rw
              (saved-saved (set_priority payload.priority moved) (updated_row payload moved)
                db.work_orders (prior_id ∙ sym row_id))
              (scalar-saved tenant.organization_id id (updated_row payload moved) db.work_orders
                found (ground arith) (ground arith));
        audited = refl;
        told = notified-ChangeTells tenant ids now user _ payload.assigned_to_id db.notifications;
        before = w;
        found = found;
        changed = updated-IsChanged payload w moved now m asked;
        moved = status_after w moved now (updated_row payload moved) m row_status;
      }

  -- The committed update: the row that the query finds is the one that the response shows. It has the
  -- status, the priority, the assignee and the due date that the payload gives, the rest as before but
  -- for the time stamps of the status, which was kept or moved along an arrow of the life cycle. The
  -- audit log has one entry more. The notifications have one more if the payload names an assignee
  -- other than the user, and are the same otherwise.
  pub update_committed :
      (w' : WorkOrder)
      → (request (update_work_order id payload ids now tenant user) db).0 ≡ ok w'
      → HasUpdate w' (request (update_work_order id payload ids now tenant user) db).1
  update_committed w' =
      update_rule_given id payload ids now tenant user (λ r. r.0 ≡ ok w' → HasUpdate w' r.1) db
        (λ e h. cc h)
        λ w moved found m asked h.
          subst (λ x. HasUpdate x (after_update id payload ids now tenant user db moved))
            (ok_injective h) (updated-HasUpdate w moved found m asked)
