-- ===== src/Maintenance/Outcome.antt =====
-- The two ways in which an update of a work order ends, as one rule: refused before the commit, or
-- committed with the row, the audit entry and the notification that it is to have.
use mytenancyplus.Prelude.{
  Bool-cases, Uuid, true, sym, arith, DateTime, ◌≡◌, refl, Option, none, some, List, [], ◌∷◌, ◌==◌,
  inl, inr,
}
use mytenancyplus.Prelude.Tables.{scalar, update_where}
use mytenancyplus.Models.Organization.{User}
use mytenancyplus.Models.Maintenance.{WorkOrder, WorkOrderStatus, same_status, status_value}
use mytenancyplus.Models.Audit.{str}
use mytenancyplus.Models.Content.{Notification}
use mytenancyplus.Transaction.{
  Database, AsyncSession, Action, Result, Exception, request, close_session, begin, err, ok,
  continue, invalid_work_order_transition,
}
use mytenancyplus.Transaction.Rules.{or_raise_rule}
use mytenancyplus.Tenancy.{TenantContext, admits}
use mytenancyplus.Audit.{AuditEvent, audit_row, notification_row}
use mytenancyplus.Maintenance.{transition_work_order}
use mytenancyplus.Maintenance.Lifecycle.{transition_exact}
use mytenancyplus.Maintenance.Routes.{
  notify_assignee, assignment, or_conflict, WorkOrderUpdate, NewIds, is_wanted, find_work_order,
  check_assignee, check_new_assignee, change_status, set_priority, set_assignee, set_due_at,
  new_recipient, update_work_order,
}

-- The value that a payload gives, or the one that is there.
abbrev pub given : {A : Type 0} → Option A → A → A
given none a = a
given (some b) a = b

-- The status of the payload was taken over: it is none or the old one, or an allowed transition.
pub data Moved (w : WorkOrder) (now : DateTime) : WorkOrder → Type 0 where
  stayed : Moved w now w
  went :
      {w' : WorkOrder} (target : WorkOrderStatus)
      → transition_work_order w target now ≡ ok w'
      → Moved w now w'

same_status_eq : (s t : WorkOrderStatus) → same_status s t ≡ true → s ≡ t
same_status_eq s t h = ground (arith, h)

module _ {A : Type 0} (P : Result A × AsyncSession → Type 0) (s : AsyncSession)
    (refused : (e : Exception) → P (err e, s)) where
  or_conflict_rule :
      (w : WorkOrder) (now : DateTime) (target : WorkOrderStatus) (r : Result WorkOrder)
      (f : WorkOrder → Action A)
      → transition_work_order w target now ≡ r
      → ((moved : WorkOrder) → Moved w now moved → moved.status ≡ target → P (f moved s))
      → P (continue f (or_conflict r s))
  or_conflict_rule w now target (ok moved) f e passed =
      passed moved (went target e) ((transition_exact w target now).0 moved e).1
  or_conflict_rule w now target (err (invalid_work_order_transition m)) f e passed = refused _
  or_conflict_rule w now target (err x) f e passed = refused _

  change_status_rule :
      (status : Option WorkOrderStatus) (w : WorkOrder) (now : DateTime) (f : WorkOrder → Action A)
      → ((moved : WorkOrder)
          → Moved w now moved
          → moved.status ≡ given status w.status
          → P (f moved s))
      → P (continue f (change_status status w now s))
  change_status_rule none w now f passed = passed w stayed refl
  change_status_rule (some target) w now f passed =
      elim (Bool-cases (same_status target w.status)) [
        | inl same ↦ rw same (passed w stayed (sym (same_status_eq target w.status same)))
        | inr other ↦
            rw other
              (or_conflict_rule w now target (transition_work_order w target now) f refl passed)
      ]

  check_assignee_rule :
      (tenant : TenantContext) (assignee : Option Uuid) (f : Unit {0} → Action A)
      → P (f tt s)
      → P (continue f (check_assignee tenant assignee s))
  check_assignee_rule tenant none f passed = passed
  check_assignee_rule tenant (some user_id) f passed =
      or_raise_rule (λ r. P (continue f r))
        (scalar (admits tenant.organization_id user_id) s.working.memberships) _ _ s
        (λ _. refused _) (λ _ _. passed)

  check_new_assignee_rule :
      (tenant : TenantContext) (assignee : Option (Option Uuid)) (f : Unit {0} → Action A)
      → P (f tt s)
      → P (continue f (check_new_assignee tenant assignee s))
  check_new_assignee_rule tenant none f passed = passed
  check_new_assignee_rule tenant (some assignee) f passed =
      check_assignee_rule tenant assignee f passed

-- The work order after the update, from its row and what became of its status.
abbrev pub updated_row : WorkOrderUpdate → WorkOrder → WorkOrder
updated_row payload moved =
    set_due_at payload.due_at
      (set_assignee payload.assigned_to_id (set_priority payload.priority moved))

-- The rows with this one written back.
abbrev pub saved : WorkOrder → List WorkOrder → List WorkOrder
saved w = update_where (λ x. x.id == w.id) (λ _. w)

abbrev pub update_event : TenantContext → User → WorkOrder → AuditEvent
update_event tenant user w = record {
  organization_id = tenant.organization_id;
  actor_user_id = user.id;
  action = "work_order.updated";
  resource_type = "work_order";
  resource_id = w.id;
  details = ("status", str (status_value w.status)) ∷ [];
}

-- The notifications after the update.
abbrev pub notified :
    TenantContext
    → NewIds
    → DateTime
    → WorkOrder
    → Option Uuid
    → List Notification
    → List Notification
notified tenant ids now w none rows = rows
notified tenant ids now w (some user_id) rows =
    notification_row ids.notification now (assignment tenant w user_id) ∷ rows

pub notified_rule :
    {A : Type 0} (P : Result A × AsyncSession → Type 0) (tenant : TenantContext) (ids : NewIds)
    (now : DateTime) (w : WorkOrder) (o : Option Uuid) (f : Unit {0} → Action A) (s : AsyncSession)
    → P (
        f tt (record s {
          working = record s.working {
            notifications = notified tenant ids now w o s.working.notifications;
          };
        }))
    → P (continue f (notify_assignee tenant ids now w o s))
notified_rule P tenant ids now w none f s passed = passed
notified_rule P tenant ids now w (some user_id) f s passed = passed

module _ (id : Uuid) (payload : WorkOrderUpdate) (ids : NewIds) (now : DateTime)
    (tenant : TenantContext) (user : User) where
  -- The database that a successful update commits.
  abbrev pub after_update : Database → WorkOrder → Database
  after_update db moved =
      let w = updated_row payload moved in
      record db {
        work_orders = saved w (saved (set_priority payload.priority moved) db.work_orders);
        audit_logs = audit_row ids.audit now (update_event tenant user w) ∷ db.audit_logs;
        notifications =
            notified tenant ids now w (new_recipient user payload.assigned_to_id) db.notifications;
      }

  pub update_rule_given :
      (P : Result WorkOrder × Database → Type 0) (db : Database)
      → ((e : Exception) → P (err e, db))
      → ((w moved : WorkOrder)
          → scalar (is_wanted tenant.organization_id id) db.work_orders ≡ some w
          → Moved w now moved
          → moved.status ≡ given payload.status w.status
          → P (ok (updated_row payload moved), after_update db moved))
      → P (request (update_work_order id payload ids now tenant user) db)
  unfolding update_work_order find_work_order
  update_rule_given P db refused passed =
      or_raise_rule Q (scalar (is_wanted tenant.organization_id id) db.work_orders) _ _ (begin db)
        (λ _. refused _)
        λ w found. change_status_rule Q (begin db) refused payload.status w now _ λ moved m asked.
          check_new_assignee_rule Q
            (record {
              committed = db;
              working = record db {
                work_orders = saved (set_priority payload.priority moved) db.work_orders;
              };
            })
            refused tenant payload.assigned_to_id _
            (notified_rule Q tenant ids now (updated_row payload moved)
              (new_recipient user payload.assigned_to_id) _ _ (passed w moved found m asked))
    where
      Q : Result WorkOrder × AsyncSession → Type 0
      Q r = P (close_session r)

  -- The rule, where it does not matter which status was asked for.
  pub update_rule :
      (P : Result WorkOrder × Database → Type 0) (db : Database)
      → ((e : Exception) → P (err e, db))
      → ((w moved : WorkOrder)
          → scalar (is_wanted tenant.organization_id id) db.work_orders ≡ some w
          → Moved w now moved
          → P (ok (updated_row payload moved), after_update db moved))
      → P (request (update_work_order id payload ids now tenant user) db)
  update_rule P db refused passed =
      update_rule_given P db refused (λ w moved found m _. passed w moved found m)
