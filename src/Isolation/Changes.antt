-- ===== src/Isolation/Changes.antt =====
-- What one request of a member leaves of the other organizations, and of the keys.
use mytenancyplus.Prelude.{
  Bool-cases, is_some, Uuid, DateTime, String, false, ◌==◌, ==_iff, ◌≡◌, ◌≢◌, refl, sym, ap, arith,
  Option-cases, inl, inr, Option, none, some, List,
}
use mytenancyplus.Prelude.Tables.{All, select, scalar}
use mytenancyplus.Prelude.Keys.{IsKey, IsKey-update_where}
use mytenancyplus.Models.Organization.{User}
use mytenancyplus.Models.Maintenance.{WorkOrder}
use mytenancyplus.Transaction.{Database, request}
use mytenancyplus.Tenancy.{TenantContext}
use mytenancyplus.Properties.{
  PropertyCreate, UnitCreate, create_property, create_unit, is_own_property, same_label, new_unit,
}
use mytenancyplus.Leases.{LeaseCreate, TenantCreate, create_lease, create_tenant}
use mytenancyplus.Leases.Occupancy.{create_rule}
use mytenancyplus.Maintenance.Routes.{
  WorkOrderCreate, WorkOrderUpdate, NewIds, create_work_order, update_work_order, is_wanted,
  new_work_order, new_recipient, set_priority, add_work_order_comment,
}
use mytenancyplus.Maintenance.Outcome.{update_rule, notified, updated_row, saved}
use mytenancyplus.Maintenance.Updates.{select-updated_row}
use mytenancyplus.Maintenance.Creation.{created_rule}
use mytenancyplus.Isolation.{view, HasKeys}

-- What a request of a member may do: the keys stay keys, and no other organization sees a change.
pub record Keeps (tenant : TenantContext) (db after : Database) : Type 0 where
  pub keys : HasKeys after
  pub unseen : (o : Uuid) → tenant.organization_id ≢ o → view o after ≡ view o db

pub differs : (i j : Uuid) → i ≢ j → (i == j) ≡ false
differs i j h = ground arith

-- A request that writes nothing.
pub unchanged : (tenant : TenantContext) {db : Database} → HasKeys db → Keeps tenant db db
unchanged tenant h = record { keys = h; unseen = λ o apart. refl }

saved-IsKey :
    (w : WorkOrder) (rows : List WorkOrder)
    → IsKey (λ x. x.id) rows
    → IsKey (λ x. x.id) (saved w rows)
saved-IsKey w rows h =
    IsKey-update_where (λ x. x.id) (λ x. x.id == w.id) (λ _. w) rows
      (λ x e. sym ((==_iff x.id w.id).0 e)) h

module _ (tenant : TenantContext) (user : User) (db : Database) (h : HasKeys db) where
  pub create_property-Keeps :
      (upper : String → String) (payload : PropertyCreate) (id audit_id : Uuid) (now : DateTime)
      → Keeps tenant db (request (create_property upper payload id audit_id now tenant user) db).1
  unfolding create_property
  create_property-Keeps upper payload id audit_id now = record {
    keys = h;
    unseen = λ o apart. rw (differs tenant.organization_id o apart) refl;
  }

  pub create_unit-Keeps :
      (upper : String → String) (payload : UnitCreate) (id : Uuid)
      → Keeps tenant db (request (create_unit upper payload id tenant) db).1
  unfolding create_unit
  create_unit-Keeps upper payload id =
      elim (Option-cases
        (scalar (is_own_property tenant.organization_id payload.property_id) db.properties)) [
          | inl e ↦ rw e (unchanged tenant h)
          | inr (p, e) ↦
              elim (Bool-cases
                (is_some (scalar (same_label (new_unit upper payload id tenant)) db.units))) [
                  | inl taken ↦ rw (e, taken) (unchanged tenant h)
                  | inr free ↦
                      rw (e, free)
                        (record {
                          keys = h;
                          unseen = λ o apart. rw (differs tenant.organization_id o apart) refl;
                        })
                ]
        ]

  pub create_tenant-Keeps :
      (lower : String → String) (payload : TenantCreate) (id : Uuid)
      → Keeps tenant db (request (create_tenant lower payload id tenant) db).1
  unfolding create_tenant
  create_tenant-Keeps lower payload id = record {
    keys = h;
    unseen = λ o apart. rw (differs tenant.organization_id o apart) refl;
  }

  pub create_lease-Keeps :
      (payload : LeaseCreate) (id audit_id : Uuid) (now : DateTime)
      → Keeps tenant db (request (create_lease payload id audit_id now tenant user) db).1
  create_lease-Keeps payload id audit_id now =
      create_rule payload id audit_id now tenant user (λ r. Keeps tenant db r.1) db
        (λ e. unchanged tenant h)
        (λ free. record {
          keys = h;
          unseen = λ o apart. rw (differs tenant.organization_id o apart) refl;
        })

  pub add_work_order_comment-Keeps :
      (work_order_id : Uuid) (body : String) (id : Uuid) (now : DateTime)
      → Keeps tenant db
          (request (add_work_order_comment work_order_id body id now tenant user) db).1
  unfolding add_work_order_comment
  add_work_order_comment-Keeps work_order_id body id now =
      elim (Option-cases (scalar (is_wanted tenant.organization_id work_order_id) db.work_orders)) [
        | inl e ↦ rw e (unchanged tenant h)
        | inr (w, e) ↦ rw e (record {
          keys = h;
          unseen = λ o apart. rw (differs tenant.organization_id o apart) refl;
        })
      ]

  -- The notifications with one for the assignee, if there is one.
  select-notified :
      (ids : NewIds) (now : DateTime) (w : WorkOrder) (assignee : Option Uuid) (o : Uuid)
      → tenant.organization_id ≢ o
      → select (λ n. n.organization_id == o) (notified tenant ids now w assignee db.notifications)
        ≡ select (λ n. n.organization_id == o) db.notifications
  select-notified ids now w none o apart = refl
  select-notified ids now w (some user_id) o apart =
      rw (differs tenant.organization_id o apart) refl

  notified-IsKey :
      (ids : NewIds) (now : DateTime) (w : WorkOrder) (assignee : Option Uuid)
      → All (λ n. n.id ≢ ids.notification) db.notifications
      → IsKey (λ n. n.id) (notified tenant ids now w assignee db.notifications)
  notified-IsKey ids now w none fresh = h.notification_key
  notified-IsKey ids now w (some user_id) fresh = (fresh, h.notification_key)

  pub create_work_order-Keeps :
      (payload : WorkOrderCreate) (ids : NewIds) (now : DateTime)
      → All (λ w. w.id ≢ ids.row) db.work_orders
      → All (λ n. n.id ≢ ids.notification) db.notifications
      → Keeps tenant db (request (create_work_order payload ids now tenant user) db).1
  create_work_order-Keeps payload ids now new fresh =
      created_rule payload ids now tenant user (λ r. Keeps tenant db r.1) db
        (λ e. unchanged tenant h)
        (λ refers. record {
          keys = record {
            order_key = (new, h.order_key);
            notification_key =
                notified-IsKey ids now (new_work_order payload tenant user ids now)
                  payload.assigned_to_id fresh;
            document_key = h.document_key;
          };
          unseen = λ o apart. rw (differs tenant.organization_id o apart) (
              ap (λ rows. record (view o db) { notifications = rows })
                (select-notified ids now (new_work_order payload tenant user ids now)
                  payload.assigned_to_id o apart));
        })

  pub update_work_order-Keeps :
      (id : Uuid) (payload : WorkOrderUpdate) (ids : NewIds) (now : DateTime)
      → All (λ n. n.id ≢ ids.notification) db.notifications
      → Keeps tenant db (request (update_work_order id payload ids now tenant user) db).1
  update_work_order-Keeps id payload ids now fresh =
      update_rule id payload ids now tenant user (λ r. Keeps tenant db r.1) db
        (λ e. unchanged tenant h)
        λ w moved found m. record {
          keys = record {
            order_key =
                saved-IsKey (updated_row payload moved) _
                  (saved-IsKey (set_priority payload.priority moved) db.work_orders h.order_key);
            notification_key =
                notified-IsKey ids now (updated_row payload moved)
                  (new_recipient user payload.assigned_to_id) fresh;
            document_key = h.document_key;
          };
          unseen = λ o apart. rw (differs tenant.organization_id o apart) (
              both (λ ws ns. record (view o db) { work_orders = ws; notifications = ns })
                (select-updated_row id payload ids now tenant user db o (λ e. apart (sym e))
                  h.order_key w moved found m)
                (select-notified ids now (updated_row payload moved)
                  (new_recipient user payload.assigned_to_id) o apart));
        }
    where
      both : {A B C : Type 0} (f : A → B → C) {a c : A} {b d : B} → a ≡ c → b ≡ d → f a b ≡ f c d
      both f p q = cc
