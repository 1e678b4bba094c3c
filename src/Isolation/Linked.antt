-- ===== src/Isolation/Linked.antt =====
-- The requests that write what refers to other rows.
use mytenancyplus.Prelude.{Uuid, DateTime, String, ap, is_some}
use mytenancyplus.Prelude.Tables.{All-Has, All-map, scalar, scalar_passes}
use mytenancyplus.Models.Organization.{User}
use mytenancyplus.Models.Estate.{EstateUnit}
use mytenancyplus.Models.Lease.{Lease}
use mytenancyplus.Prelude.Keys.{IsKey}
use mytenancyplus.Models.Maintenance.{WorkOrder, WorkOrderComment}
use mytenancyplus.Transaction.{Database, AsyncSession, Result, request, begin, close_session}
use mytenancyplus.Transaction.Rules.{or_raise_rule, raise_if_rule}
use mytenancyplus.Tenancy.{TenantContext}
use mytenancyplus.Properties.{
  PropertyCreate, UnitCreate, new_unit, create_property, create_unit, is_own_property, same_label,
}
use mytenancyplus.Leases.{LeaseCreate, TenantCreate, create_tenant, create_lease}
use mytenancyplus.Leases.Occupancy.{conflicts_rule}
use mytenancyplus.Maintenance.Routes.{
  add_work_order_comment, find_work_order, is_wanted, WorkOrderCreate, WorkOrderUpdate, NewIds,
  set_priority, create_work_order, update_work_order,
}
use mytenancyplus.Maintenance.Outcome.{saved, updated_row, update_rule}
use mytenancyplus.Maintenance.Creation.{created_rule}
use mytenancyplus.Isolation.Links.{
  IsOwner-unique, IsOwner-like, IsOwner-saved, comments_saved, is_tenant_of, is_unit, OrderLinked,
  IsLinked, later_row, unit_later, found_unit, same_links, references_kept, saved_linked,
}

module _ (tenant : TenantContext) (user : User) (db : Database) (h : IsLinked db) where
  create_property-IsLinked :
      (upper : String → String) (payload : PropertyCreate) (id audit_id : Uuid) (now : DateTime)
      → IsLinked (request (create_property upper payload id audit_id now tenant user) db).1
  unfolding create_property
  create_property-IsLinked upper payload id audit_id now = record {
    units = All-map db.units h.units (λ u e. later_row _ _ db.properties e);
    leases = h.leases;
    work_orders =
        All-map db.work_orders h.work_orders (λ w e. (later_row _ _ db.properties e.0, e.1));
    work_order_comments = h.work_order_comments;
  }

  create_unit-IsLinked :
      (upper : String → String) (payload : UnitCreate) (id : Uuid)
      → IsLinked (request (create_unit upper payload id tenant) db).1
  unfolding create_unit
  create_unit-IsLinked upper payload id =
      or_raise_rule Q
        (scalar (is_own_property tenant.organization_id payload.property_id) db.properties) _ _
        (begin db) (λ _. h)
        λ p found.
          raise_if_rule Q
            (is_some (scalar (same_label (new_unit upper payload id tenant)) db.units)) _ _
            (begin db) (λ _. h)
            λ _. record {
              units = (ap is_some found, h.units);
              leases = All-map db.leases h.leases (λ l e. (later_row _ _ db.units e.0, e.1));
              work_orders =
                  All-map db.work_orders h.work_orders
                    (λ w e. (e.0, unit_later _ db.units _ _ w.unit_id e.1));
              work_order_comments = h.work_order_comments;
            }
    where
      Q : Result EstateUnit × AsyncSession → Type 0
      Q r = IsLinked (close_session r).1

  create_tenant-IsLinked :
      (lower : String → String) (payload : TenantCreate) (id : Uuid)
      → IsLinked (request (create_tenant lower payload id tenant) db).1
  unfolding create_tenant
  create_tenant-IsLinked lower payload id = record {
    units = h.units;
    leases = All-map db.leases h.leases (λ l e. (e.0, later_row _ _ db.tenant_profiles e.1));
    work_orders = h.work_orders;
    work_order_comments = h.work_order_comments;
  }

  create_lease-IsLinked :
      (payload : LeaseCreate) (id audit_id : Uuid) (now : DateTime)
      → IsLinked (request (create_lease payload id audit_id now tenant user) db).1
  unfolding create_lease
  create_lease-IsLinked payload id audit_id now =
      or_raise_rule Q (scalar (is_unit tenant.organization_id payload.unit_id) db.units) _ _
        (begin db) (λ _. h)
        λ unit unit_found.
          or_raise_rule Q
            (scalar (is_tenant_of tenant.organization_id payload.tenant_id) db.tenant_profiles) _ _
            (begin db) (λ _. h)
            λ profile profile_found.
              conflicts_rule payload id audit_id now tenant user Q (begin db) _ (λ _ _ _ _ _. h)
                (λ _ _ _. h)
                λ _. record {
                  units = h.units;
                  leases = ((ap is_some unit_found, ap is_some profile_found), h.leases);
                  work_orders = h.work_orders;
                  work_order_comments = h.work_order_comments;
                }
    where
      Q : Result Lease × AsyncSession → Type 0
      Q r = IsLinked (close_session r).1

  create_work_order-IsLinked :
      (payload : WorkOrderCreate) (ids : NewIds) (now : DateTime)
      → IsLinked (request (create_work_order payload ids now tenant user) db).1
  create_work_order-IsLinked payload ids now =
      created_rule payload ids now tenant user (λ r. IsLinked r.1) db (λ _. h)
        λ refers. record {
          units = h.units;
          leases = h.leases;
          work_orders = (
            (
              ap is_some refers.property_found,
              found_unit db tenant.organization_id payload.property_id payload.unit_id
                  refers.unit_found,
            ),
            h.work_orders,
          );
          work_order_comments =
              All-map db.work_order_comments h.work_order_comments
                (λ c e. later_row _ _ db.work_orders e);
        }

  add_work_order_comment-IsLinked :
      (work_order_id : Uuid) (body : String) (id : Uuid) (now : DateTime)
      → IsLinked (request (add_work_order_comment work_order_id body id now tenant user) db).1
  unfolding add_work_order_comment find_work_order
  add_work_order_comment-IsLinked work_order_id body id now =
      or_raise_rule Q (scalar (is_wanted tenant.organization_id work_order_id) db.work_orders) _ _
        (begin db) (λ _. h)
        λ w found. record {
          units = h.units;
          leases = h.leases;
          work_orders = h.work_orders;
          work_order_comments = (ap is_some found, h.work_order_comments);
        }
    where
      Q : Result WorkOrderComment × AsyncSession → Type 0
      Q r = IsLinked (close_session r).1

  update_work_order-IsLinked :
      (id : Uuid) (payload : WorkOrderUpdate) (ids : NewIds) (now : DateTime)
      → IsKey (λ (w : WorkOrder). w.id) db.work_orders
      → IsLinked (request (update_work_order id payload ids now tenant user) db).1
  update_work_order-IsLinked id payload ids now key =
      update_rule id payload ids now tenant user (λ r. IsLinked r.1) db (λ _. h)
        λ w moved found m.
          let (row, prior) = references_kept payload w moved now m in
          let old =
            All-Has (OrderLinked db.properties db.units) db.work_orders h.work_orders
              (scalar_passes _ db.work_orders found).1 in
          let owner =
            IsOwner-unique w db.work_orders key (scalar_passes _ db.work_orders found).1 in
          let first = set_priority payload.priority moved in
          let second = updated_row payload moved in
          record {
            units = h.units;
            leases = h.leases;
            work_orders =
                saved_linked db.properties db.units (updated_row payload moved) _
                  (same_links db.properties db.units w (updated_row payload moved) row old)
                  (saved_linked db.properties db.units (set_priority payload.priority moved)
                    db.work_orders
                    (same_links db.properties db.units w (set_priority payload.priority moved) prior
                      old)
                    h.work_orders);
            work_order_comments =
                comments_saved second (saved first db.work_orders) db.work_order_comments
                  (IsOwner-like w second (saved first db.work_orders) row
                    (IsOwner-saved w first db.work_orders prior.1 owner))
                  (comments_saved first db.work_orders db.work_order_comments
                    (IsOwner-like w first db.work_orders prior owner) h.work_order_comments);
          }

  -- POST /properties, /units, /tenants, /leases, /work-orders and /work-orders/{id}/comments and PATCH
  -- /work-orders/{id} keep every reference of units, leases, work orders and comments within the
  -- organization of the row, where the ids of work orders are keys.
  pub requests-IsLinked :
      (upper lower : String → String) (p : PropertyCreate) (u : UnitCreate) (t : TenantCreate)
      (l : LeaseCreate) (w : WorkOrderCreate) (change : WorkOrderUpdate) (body : String)
      (id audit_id : Uuid) (ids : NewIds) (now : DateTime)
      → IsKey (λ (w : WorkOrder). w.id) db.work_orders
      → IsLinked (request (create_property upper p id audit_id now tenant user) db).1
        × IsLinked (request (create_unit upper u id tenant) db).1
        × IsLinked (request (create_tenant lower t id tenant) db).1
        × IsLinked (request (create_lease l id audit_id now tenant user) db).1
        × IsLinked (request (create_work_order w ids now tenant user) db).1
        × IsLinked (request (add_work_order_comment id body audit_id now tenant user) db).1
        × IsLinked (request (update_work_order id change ids now tenant user) db).1
  requests-IsLinked upper lower p u t l w change body id audit_id ids now key = (
    create_property-IsLinked upper p id audit_id now,
    create_unit-IsLinked upper u id,
    create_tenant-IsLinked lower t id,
    create_lease-IsLinked l id audit_id now,
    create_work_order-IsLinked w ids now,
    add_work_order_comment-IsLinked id body audit_id now,
    update_work_order-IsLinked id change ids now key,
  )
