-- ===== src/Notifications/Examples.antt =====
-- The theorems on notifications for a user with two unread ones.
use mytenancyplus.Prelude.{ℕ, ◌≡◌, refl, true, none, some, [], ◌∷◌}
use mytenancyplus.Models.Organization.{User, owner}
use mytenancyplus.Models.Content.{Notification}
use mytenancyplus.Transaction.{Database, empty, ok, request}
use mytenancyplus.Tenancy.{TenantContext}
use mytenancyplus.Notifications.{mark_notification_read, unread_notification_count}
use mytenancyplus.Notifications.Reading.{unread_count-after}

abbrev user : User
user = record { id = 7; email = "a@b.c"; full_name = "A"; password_hash = "h"; is_active = true }

abbrev tenant : TenantContext
tenant = record { organization_id = 1; user_id = 7; role = owner }

abbrev notice : ℕ → Notification
notice id = record {
  id = id;
  organization_id = 1;
  recipient_user_id = 7;
  category = "maintenance";
  title = "Work order assigned";
  body = "Boiler";
  resource_type = some "work_order";
  resource_id = some 3;
  read_at = none;
  created_at = 50;
}

abbrev db : Database
db = record empty { notifications = notice 5 ∷ notice 6 ∷ [] }

one_left :
    (request
      (unread_notification_count tenant user)
      (request (mark_notification_read 6 100 tenant user) db).1).0
    ≡ ok 1
unfolding unread_notification_count
one_left =
    unread_count-after tenant user 6 db 100 (notice 6) 1 (((λ e. cc e), tt), (tt, tt)) refl refl
      refl
