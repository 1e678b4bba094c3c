-- ===== src/Schema/Typed.antt =====
-- The requests of a member that fill the tables of properties and of maintenance.
use Prim.Native.String.{count}
use mytenancyplus.Prelude.{Uuid, DateTime, String, Bool, true, leb, ◌≡◌}
use mytenancyplus.Prelude.Tables.{All}
use mytenancyplus.Models.Organization.{User}
use mytenancyplus.Transaction.{Database, request}
use mytenancyplus.Tenancy.{TenantContext}
use mytenancyplus.Properties.{PropertyCreate, UnitCreate, create_property, create_unit}
use mytenancyplus.Leases.{LeaseCreate, TenantCreate, create_tenant, create_lease}
use mytenancyplus.Maintenance.Routes.{
  WorkOrderCreate, WorkOrderUpdate, NewIds, create_work_order, update_work_order,
}
use mytenancyplus.Requests.{
  validates_property, validates_unit, validates_tenant, validates_lease, validates_work_order,
}
use mytenancyplus.Schema.Orders.{order_fits, create-fits, update-fits}
use mytenancyplus.Schema.Stored.{
  IsStored, create_property-IsStored, create_unit-IsStored, create_tenant-IsStored,
  create_lease-IsStored,
}

module _ (tenant : TenantContext) (user : User) (db : Database) (h : IsStored db)
    (orders : All (λ w. order_fits w ≡ true) db.work_orders) where
  -- Of requests that pydantic lets through, POST /properties, /units, /tenants, /leases and
  -- /work-orders and PATCH /work-orders/{id} keep the rows of their tables within the columns that
  -- the migrations create (lengths, digits, nulls, members of enumerations), if the upper-case
  -- country code and currency and the lower-case email are short enough.
  pub requests-AreStored :
      (upper lower : String → String) (is_email : String → Bool) (p : PropertyCreate)
      (u : UnitCreate) (t : TenantCreate) (l : LeaseCreate) (w : WorkOrderCreate)
      (change : WorkOrderUpdate) (id audit_id : Uuid) (ids : NewIds) (now : DateTime)
      → validates_property p ≡ true
      → validates_unit u ≡ true
      → validates_tenant is_email t ≡ true
      → validates_lease l ≡ true
      → validates_work_order w ≡ true
      → leb (count (upper p.country_code)) 2 ≡ true
      → leb (count (upper u.currency)) 3 ≡ true
      → leb (count (lower t.email)) 320 ≡ true
      → IsStored (request (create_property upper p id audit_id now tenant user) db).1
        × IsStored (request (create_unit upper u id tenant) db).1
        × IsStored (request (create_tenant lower t id tenant) db).1
        × IsStored (request (create_lease l id audit_id now tenant user) db).1
        × All
            (λ v. order_fits v ≡ true)
            (request (create_work_order w ids now tenant user) db).1.work_orders
        × All
            (λ v. order_fits v ≡ true)
            (request (update_work_order id change ids now tenant user) db).1.work_orders
  requests-AreStored upper lower is_email p u t l w change id audit_id ids now hp hu ht hl hw code
        currency email =
      (
        create_property-IsStored tenant user db h upper p id audit_id now hp code,
        create_unit-IsStored tenant user db h upper u id hu currency,
        create_tenant-IsStored tenant user db h is_email lower t id ht email,
        create_lease-IsStored tenant user db h l id audit_id now hl,
        create-fits ids now tenant user db orders w hw,
        update-fits ids now tenant user db orders id change,
      )
