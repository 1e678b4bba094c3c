-- ===== src/Notifications.antt =====
-- app/api/routes/notifications.py and app/api/routes/audit.py. `limit` is what pydantic lets through.
pub mod Reading
pub mod Examples
use mytenancyplus.Prelude.{
  ℕ, Uuid, DateTime, Bool, true, false, not, ◌&&◌, ◌==◌, leb, Option, none, some, List, [], ◌∷◌,
  is_some, if◌then◌else◌,
}
use mytenancyplus.Prelude.Tables.{scalar, select, update_where, count_where, take}
use mytenancyplus.Prelude.Order.{order_by}
use mytenancyplus.Models.Organization.{User, MembershipRole, owner, admin}
use mytenancyplus.Models.Content.{Notification}
use mytenancyplus.Models.Audit.{AuditLog}
use mytenancyplus.Transaction.{
  Database, Action, http_exception, pure, gets, or_raise, modify, commit, ◌>>=◌, ◌>>◌,
}
use mytenancyplus.Tenancy.{TenantContext}

-- The notifications of the user in the tenant's organization.
abbrev pub is_received : TenantContext → User → Notification → Bool
is_received tenant user n =
    n.organization_id == tenant.organization_id && n.recipient_user_id == user.id

abbrev pub is_unread : Notification → Bool
is_unread n = not (is_some n.read_at)

-- created_at.desc()
abbrev pub newest_first : Notification → Notification → Bool
newest_first m n = leb n.created_at m.created_at

-- The query, with `unread_only`.
abbrev pub received : TenantContext → User → Bool → Database → List Notification
received tenant user false db = select (is_received tenant user) db.notifications
received tenant user true db =
    select (λ n. is_received tenant user n && is_unread n) db.notifications

unfoldable pub list_notifications : TenantContext → User → Bool → ℕ → Action (List Notification)
list_notifications tenant user unread_only limit =
    gets (λ db. take limit (order_by newest_first (received tenant user unread_only db)))

unfoldable pub unread_notification_count : TenantContext → User → Action ℕ
unread_notification_count tenant user =
    gets (λ db. count_where (λ n. is_received tenant user n && is_unread n) db.notifications)

-- The row that the path names, if the user received it.
abbrev pub is_named : TenantContext → User → Uuid → Notification → Bool
is_named tenant user id n = n.id == id && is_received tenant user n

-- `if notification.read_at is None`
abbrev pub read_now : Notification → DateTime → Action Notification
read_now n now =
    if is_unread n
    then (do
      let read : Notification = record n { read_at = some now }
      modify (λ db. record db {
        notifications = update_where (λ m. m.id == read.id) (λ _. read) db.notifications;
      })
      commit
      pure read)
    else pure n

unfoldable pub mark_notification_read : Uuid → DateTime → TenantContext → User → Action Notification
mark_notification_read id now tenant user = do
  found ← gets (λ db. scalar (is_named tenant user id) db.notifications)
  notification ← or_raise found (http_exception 404 "Notification not found")
  read_now notification now

-- The `read_roles` of the audit log.
abbrev pub read_roles : List MembershipRole
read_roles = owner ∷ admin ∷ []

abbrev pub latest_first : AuditLog → AuditLog → Bool
latest_first m n = leb n.created_at m.created_at

unfoldable pub list_audit_logs : TenantContext → ℕ → Action (List AuditLog)
list_audit_logs tenant limit = gets (λ db. take limit (
    order_by latest_first
      (select (λ e. e.organization_id == tenant.organization_id) db.audit_logs)))
