-- ===== src/Transaction.antt =====
-- A request and its database session (app/db/session.py, app/db/base.py). A session holds what is
-- committed and what its own transaction sees; `get_db` rolls back when a handler raises, and only
-- what was committed outlives the request. One request runs at a time; where the code guards
-- against another one, the interference is an argument of the definition concerned.
pub mod Rules
use mytenancyplus.Prelude.{ℕ, String, Bool, Option, none, some, List, [], if◌then◌else◌}
use mytenancyplus.Models.Organization.{User, Organization, Membership, Invitation}
use mytenancyplus.Models.Estate.{Property, EstateUnit}
use mytenancyplus.Models.Lease.{TenantProfile, Lease}
use mytenancyplus.Models.Maintenance.{WorkOrder, WorkOrderComment}
use mytenancyplus.Models.Session.{RefreshSession}
use mytenancyplus.Models.Billing.{Subscription, WebhookReceipt}
use mytenancyplus.Models.Audit.{AuditLog, OutboxEvent}
use mytenancyplus.Models.Content.{Document, Notification}

-- The tables of app/db/base.py.
pub record Database : Type 0 where
  pub users : List User
  pub organizations : List Organization
  pub memberships : List Membership
  pub invitations : List Invitation
  pub properties : List Property
  pub units : List EstateUnit
  pub tenant_profiles : List TenantProfile
  pub leases : List Lease
  pub work_orders : List WorkOrder
  pub work_order_comments : List WorkOrderComment
  pub refresh_sessions : List RefreshSession
  pub subscriptions : List Subscription
  pub webhook_receipts : List WebhookReceipt
  pub audit_logs : List AuditLog
  pub outbox_events : List OutboxEvent
  pub documents : List Document
  pub notifications : List Notification

abbrev pub empty : Database
empty = record {
  users = [];
  organizations = [];
  memberships = [];
  invitations = [];
  properties = [];
  units = [];
  tenant_profiles = [];
  leases = [];
  work_orders = [];
  work_order_comments = [];
  refresh_sessions = [];
  subscriptions = [];
  webhook_receipts = [];
  audit_logs = [];
  outbox_events = [];
  documents = [];
  notifications = [];
}

-- The exceptions of the program, and those of its libraries that can escape a handler.
pub data Exception : Type 0 where
  http_exception : ℕ → String → Exception
  invalid_work_order_transition : String → Exception
  invalid_refresh_token : String → Exception
  refresh_token_reuse : String → Exception
  invalid_token : String → Exception
  attribute_error : Exception
  validation_error : String → Exception
  invalid_webhook : String → Exception
  webhook_conflict : String → Exception
  integrity_error : Exception
  data_error : Exception
  multiple_results_found : Exception
  key_error : Exception
  value_error : Exception
  redis_error : Exception
  document_too_large : ℕ → Exception
  os_error : Exception

pub data Result (A : Type 0) : Type 0 where
  ok : A → Result A
  err : Exception → Result A

-- AsyncSession: the committed state, and the state within the transaction.
pub record AsyncSession : Type 0 where
  pub committed : Database
  pub working : Database

abbrev pub Action : Type 0 → Type 0
Action A = AsyncSession → Result A × AsyncSession

module _ {A : Type 0} where
  abbrev pub pure : A → Action A
  pure a s = (ok a, s)

  abbrev pub raise : Exception → Action A
  raise e s = (err e, s)

  -- A query: what the transaction sees.
  abbrev pub gets : (Database → A) → Action A
  gets f s = (ok (f s.working), s)

  -- A pure function that may raise.
  abbrev pub lift : Result A → Action A
  lift r s = (r, s)

  abbrev pub or_raise : Option A → Exception → Action A
  or_raise none e s = (err e, s)
  or_raise (some a) e s = (ok a, s)

  -- try: m  except ... : what was written before the raise stays in the session.
  abbrev pub handle : (Exception → Action A) → Result A × AsyncSession → Result A × AsyncSession
  handle h (ok a, s) = (ok a, s)
  handle h (err e, s) = h e s

  abbrev pub catch : Action A → (Exception → Action A) → Action A
  catch m h s = handle h (m s)

infixl 5 ◌>>=◌ ◌>>◌
abbrev pub continue :
    {A B : Type 0} → (A → Action B) → Result A × AsyncSession → Result B × AsyncSession
continue f (ok a, s) = f a s
continue f (err e, s) = (err e, s)

abbrev pub ◌>>=◌ : {A B : Type 0} → Action A → (A → Action B) → Action B
◌>>=◌ m f s = continue f (m s)

abbrev pub ◌>>◌ : {A B : Type 0} → Action A → Action B → Action B
m >> k = m >>= λ _. k

abbrev pub raise_if : Bool → Exception → Action (Unit {0})
raise_if b e s = (if b then err e else ok tt, s)

-- A pending write: session.add, session.delete, a changed attribute.
abbrev pub modify : (Database → Database) → Action (Unit {0})
modify f s = (ok tt, record s { working = f s.working })

-- session.commit()
abbrev pub commit : Action (Unit {0})
commit s = (ok tt, record s { committed = s.working })

-- session.rollback()
abbrev pub rollback : Action (Unit {0})
rollback s = (ok tt, record s { working = s.committed })

abbrev pub begin : Database → AsyncSession
begin db = record { committed = db; working = db }

-- The `try` of get_db: an exception rolls back and is raised again.
abbrev pub close_session : {A : Type 0} → Result A × AsyncSession → Result A × Database
close_session (ok a, s) = (ok a, s.committed)
close_session (err e, s) = (err e, (rollback s).1.committed)

-- get_db around a handler: the response, and the database that the next request finds.
abbrev pub request : {A : Type 0} → Action A → Database → Result A × Database
request m db = close_session (m (begin db))
