-- ===== src/Dashboard/Counts.antt =====
-- The counts of the dashboard beside the listings of the other routes.
use mytenancyplus.Prelude.{
  ℕ, zero, suc, String, Bool, true, ◌&&◌, ◌==◌, ◌≡◌, ◌≢◌, ◌≤◌, refl, sym, ap, ◌∙◌, subst, none,
  List, [], ◌∷◌, arith,
}
use mytenancyplus.Prelude.Tables.{select, count_where, length, take, length-select}
use mytenancyplus.Prelude.Order.{order_by, count_where-order_by, length-order_by, select-select}
use mytenancyplus.Models.Organization.{User}
use mytenancyplus.Models.Estate.{Property, EstateUnit}
use mytenancyplus.Models.Lease.{Lease, LeaseStatus, active, is_active}
use mytenancyplus.Models.Maintenance.{WorkOrder, WorkOrderStatus, closed, cancelled}
use mytenancyplus.Models.Content.{Notification}
use mytenancyplus.Listings.{Chosen}
use mytenancyplus.Listings.Queries.{select-Chosen}
use mytenancyplus.Transaction.{Database, ok, request}
use mytenancyplus.Transaction.Rules.{ok_injective}
use mytenancyplus.Tenancy.{TenantContext}
use mytenancyplus.Properties.{list_properties, list_units}
use mytenancyplus.Leases.Listing.{list_leases}
use mytenancyplus.Maintenance.Listing.{list_work_orders}
use mytenancyplus.Notifications.{list_notifications, is_received, is_unread, newest_first}
use mytenancyplus.Dashboard.{DashboardSummary, is_open, dashboard_summary}

-- The rows of a listing that pass a test.
count_listed :
    {A : Type 0} (before : A → A → Bool) (own q : A → Bool) (rows listing : List A)
    → ok (order_by before (select own rows)) ≡ ok listing
    → count_where (λ x. own x && q x) rows ≡ count_where q listing
count_listed before own q rows listing h =
    sym (length-select (λ x. own x && q x) rows)
    ∙ (ap length (select-select own q rows)
        ∙ (length-select q (select own rows)
            ∙ (sym (count_where-order_by before q (select own rows))
                ∙ ap (count_where q) (ok_injective h))))

length_listed :
    {A : Type 0} (before : A → A → Bool) (own : A → Bool) (rows listing : List A)
    → ok (order_by before (select own rows)) ≡ ok listing
    → count_where own rows ≡ length listing
length_listed before own rows listing h =
    sym (length-select own rows)
    ∙ (sym (length-order_by before (select own rows)) ∙ ap length (ok_injective h))

-- Each of the two tests says what its name says.
active_leases_chosen :
    (ls : List Lease) → Chosen (λ l. l.status ≡ active) ls (select (λ l. is_active l.status) ls)
active_leases_chosen = select-Chosen _ _ (λ l h. means l.status h) (λ l e. rw e refl)
  where
    means : (s : LeaseStatus) → is_active s ≡ true → s ≡ active
    means s h = ground (arith, h)

open_orders_chosen :
    (ws : List WorkOrder)
    → Chosen
        (λ w. (w.status ≢ closed) × (w.status ≢ cancelled))
        ws
        (select (λ w. is_open w.status) ws)
open_orders_chosen =
    select-Chosen _ _ (λ w h. (λ e. closed_not e h, λ e. cancelled_not e h))
      (λ w h. rest w.status h.0 h.1)
  where
    closed_not : {s : WorkOrderStatus} → s ≡ closed → is_open s ≡ true → ⊥
    closed_not e h = let k : is_open closed ≡ true = subst (λ t. is_open t ≡ true) e h in cc

    cancelled_not : {s : WorkOrderStatus} → s ≡ cancelled → is_open s ≡ true → ⊥
    cancelled_not e h = let k : is_open cancelled ≡ true = subst (λ t. is_open t ≡ true) e h in cc

    rest : (s : WorkOrderStatus) → s ≢ closed → s ≢ cancelled → is_open s ≡ true
    rest s h k = ground (arith, h, k)

take_all : {A : Type 0} (n : ℕ) (xs : List A) → length xs ≤ n → length (take n xs) ≡ length xs
take_all zero [] h = refl
take_all zero (x ∷ xs) h = absurd (omega (arith, h))
take_all (suc n) [] h = refl
take_all (suc n) (x ∷ xs) h = ap suc (take_all n xs (omega (arith, h)))

-- The page of the unread notifications, where it holds them all.
unread_listed :
    (tenant : TenantContext) (user : User) (db : Database) (limit : ℕ) (ns : List Notification)
    → (request (list_notifications tenant user true limit) db).0 ≡ ok ns
    → count_where (λ n. is_received tenant user n && is_unread n) db.notifications ≤ limit
    → count_where (λ n. is_received tenant user n && is_unread n) db.notifications ≡ length ns
unfolding list_notifications
unread_listed tenant user db limit ns h few =
    let unread : Notification → Bool = λ n. is_received tenant user n && is_unread n in
    let all : length (order_by newest_first (select unread db.notifications))
        ≡ count_where unread db.notifications =
      length-order_by newest_first _ ∙ length-select unread db.notifications in
    sym all ∙ (sym (take_all limit _ (omega (arith, all, few))) ∙ ap length (ok_injective h))

-- What the dashboard is to show, beside the answers of the listings.
pub record Agrees (s : DashboardSummary) (ps : List Property) (us : List EstateUnit)
    (ls : List Lease) (ws : List WorkOrder) (ns : List Notification) : Type 0 where
  pub all_properties : s.properties ≡ length ps
  pub all_units : s.units ≡ length us
  pub active_ones : List Lease
  pub are_active : Chosen (λ (l : Lease). l.status ≡ active) ls active_ones
  pub active_counted : s.active_leases ≡ length active_ones
  pub open_ones : List WorkOrder
  pub are_open :
      Chosen (λ (w : WorkOrder). (w.status ≢ closed) × (w.status ≢ cancelled)) ws open_ones
  pub open_counted : s.open_work_orders ≡ length open_ones
  pub unread_counted : s.unread_notifications ≡ length ns

-- The dashboard counts what the listings show: all properties and units, the leases whose status is
-- active, the work orders that are neither closed nor cancelled, and the unread notifications, where
-- the limit of their listing is not below their number.
pub summary-listings :
    (tenant : TenantContext) (user : User) (text_before : String → String → Bool) (db : Database)
    (limit : ℕ) (s : DashboardSummary) (ps : List Property) (us : List EstateUnit) (ls : List Lease)
    (ws : List WorkOrder) (ns : List Notification)
    → (request (dashboard_summary tenant user) db).0 ≡ ok s
    → (request (list_properties text_before tenant) db).0 ≡ ok ps
    → (request (list_units text_before tenant) db).0 ≡ ok us
    → (request (list_leases tenant) db).0 ≡ ok ls
    → (request (list_work_orders tenant none) db).0 ≡ ok ws
    → (request (list_notifications tenant user true limit) db).0 ≡ ok ns
    → s.unread_notifications ≤ limit
    → Agrees s ps us ls ws ns
unfolding dashboard_summary list_properties list_units list_leases list_work_orders
summary-listings tenant user text_before db limit s ps us ls ws ns hs hp hu hl hw hn few =
    let shown = ok_injective hs in
    let unread = ap (λ (d : DashboardSummary). d.unread_notifications) (sym shown) in
    record {
      all_properties =
          ap (λ (d : DashboardSummary). d.properties) (sym shown)
          ∙ length_listed _ _ db.properties ps hp;
      all_units =
          ap (λ (d : DashboardSummary). d.units) (sym shown) ∙ length_listed _ _ db.units us hu;
      active_ones = select (λ l. is_active l.status) ls;
      are_active = active_leases_chosen ls;
      active_counted =
          ap (λ (d : DashboardSummary). d.active_leases) (sym shown)
          ∙ (count_listed _ (λ l. l.organization_id == tenant.organization_id) _ db.leases ls hl
              ∙ sym (length-select (λ l. is_active l.status) ls));
      open_ones = select (λ w. is_open w.status) ws;
      are_open = open_orders_chosen ws;
      open_counted =
          ap (λ (d : DashboardSummary). d.open_work_orders) (sym shown)
          ∙ (count_listed _ (λ w. w.organization_id == tenant.organization_id) _ db.work_orders ws
                hw
              ∙ sym (length-select (λ w. is_open w.status) ws));
      unread_counted =
          unread ∙ unread_listed tenant user db limit ns hn (subst (λ n. n ≤ limit) unread few);
    }
