-- ===== src/Audit.antt =====
-- app/services/audit.py and app/services/notifications.py: the rows that a handler adds beside its
-- own. The ids, which `uuid4` draws, and the moment are arguments.
use mytenancyplus.Prelude.{Uuid, DateTime, String, Option, none, List, ◌∷◌}
use mytenancyplus.Models.Audit.{JsonScalar, AuditLog}
use mytenancyplus.Models.Content.{Notification}
use mytenancyplus.Transaction.{Action, modify}

-- What the callers of record_audit_event name.
pub record AuditEvent : Type 0 where
  pub organization_id : Uuid
  pub actor_user_id : Uuid
  pub action : String
  pub resource_type : String
  pub resource_id : Uuid
  pub details : List (String × JsonScalar)

abbrev pub audit_row : Uuid → DateTime → AuditEvent → AuditLog
audit_row id now event = record {
  id = id;
  organization_id = event.organization_id;
  actor_user_id = event.actor_user_id;
  action = event.action;
  resource_type = event.resource_type;
  resource_id = event.resource_id;
  details = event.details;
  created_at = now;
}

abbrev pub record_audit_event : Uuid → DateTime → AuditEvent → Action Unit
record_audit_event id now event =
    modify (λ db. record db { audit_logs = audit_row id now event ∷ db.audit_logs })

-- What the callers of create_notification name.
pub record Notice : Type 0 where
  pub organization_id : Uuid
  pub recipient_user_id : Uuid
  pub category : String
  pub title : String
  pub body : String
  pub resource_type : Option String
  pub resource_id : Option Uuid

abbrev pub notification_row : Uuid → DateTime → Notice → Notification
notification_row id now notice = record {
  id = id;
  organization_id = notice.organization_id;
  recipient_user_id = notice.recipient_user_id;
  category = notice.category;
  title = notice.title;
  body = notice.body;
  resource_type = notice.resource_type;
  resource_id = notice.resource_id;
  read_at = none;
  created_at = now;
}

abbrev pub create_notification : Uuid → DateTime → Notice → Action Unit
create_notification id now notice =
    modify (λ db. record db { notifications = notification_row id now notice ∷ db.notifications })
