-- ===== src/Schema/Metadata.antt =====
-- The tables that the classes of app/models declare.
use mytenancyplus.Prelude.{true, false, [], ◌∷◌, ◌++◌}
use mytenancyplus.Schema.Declared.{
  plain, indexed, unique, unique_indexed, declared, uuid_primary_key_mixin, timestamp_mixin,
  tenant_owned_mixin,
}
use mytenancyplus.Schema.{
  ColumnType, uuid, string, text, boolean, integer, numeric, date, datetime, json, enum, no_action,
  cascade, set_null, required, optional, referring, Table, Catalog,
}

abbrev membership_role_enum : ColumnType
membership_role_enum = enum "membershiprole" ("OWNER" ∷ "ADMIN" ∷ "MANAGER" ∷ "VIEWER" ∷ [])

abbrev membership_status_enum : ColumnType
membership_status_enum = enum "membershipstatus" ("ACTIVE" ∷ "SUSPENDED" ∷ [])

abbrev lease_status_enum : ColumnType
lease_status_enum = enum "leasestatus" ("DRAFT" ∷ "ACTIVE" ∷ "ENDED" ∷ "CANCELLED" ∷ [])

abbrev subscription_plan_enum : ColumnType
subscription_plan_enum = enum "subscriptionplan" ("STARTER" ∷ "GROWTH" ∷ "SCALE" ∷ [])

abbrev subscription_status_enum : ColumnType
subscription_status_enum =
    enum "subscriptionstatus" ("TRIALING" ∷ "ACTIVE" ∷ "PAST_DUE" ∷ "CANCELLED" ∷ [])

abbrev work_order_priority_enum : ColumnType
work_order_priority_enum = enum "workorderpriority" ("LOW" ∷ "NORMAL" ∷ "HIGH" ∷ "URGENT" ∷ [])

abbrev work_order_status_enum : ColumnType
work_order_status_enum =
    enum "workorderstatus"
      ("OPEN" ∷ "TRIAGED" ∷ "IN_PROGRESS" ∷ "RESOLVED" ∷ "CLOSED" ∷ "CANCELLED" ∷ [])

abbrev users : Table
users =
    declared "users"
      (unique_indexed (required "email" (string 320))
        ∷ plain (required "full_name" (string 200))
        ∷ plain (required "password_hash" (string 500))
        ∷ plain (required "is_active" boolean)
        ∷ [])
      (uuid_primary_key_mixin ++ timestamp_mixin) ([])

abbrev organizations : Table
organizations =
    declared "organizations"
      (plain (required "name" (string 160))
        ∷ unique_indexed (required "slug" (string 100))
        ∷ plain (referring "created_by_id" "users" no_action false)
        ∷ [])
      (uuid_primary_key_mixin ++ timestamp_mixin) ([])

abbrev memberships : Table
memberships =
    declared "memberships"
      (indexed (referring "organization_id" "organizations" cascade false)
        ∷ indexed (referring "user_id" "users" cascade false)
        ∷ plain (required "role" membership_role_enum)
        ∷ plain (required "status" membership_status_enum)
        ∷ [])
      (uuid_primary_key_mixin ++ timestamp_mixin) (("organization_id" ∷ "user_id" ∷ []) ∷ [])

abbrev properties : Table
properties =
    declared "properties"
      (plain (required "name" (string 180))
        ∷ plain (required "address_line" (string 300))
        ∷ plain (required "city" (string 100))
        ∷ plain (required "country_code" (string 2))
        ∷ [])
      (uuid_primary_key_mixin ++ (tenant_owned_mixin ++ timestamp_mixin)) ([])

abbrev units : Table
units =
    declared "units"
      (indexed (referring "property_id" "properties" cascade false)
        ∷ plain (required "label" (string 80))
        ∷ plain (required "bedrooms" integer)
        ∷ plain (required "monthly_rent" (numeric 14 2))
        ∷ plain (required "currency" (string 3))
        ∷ plain (required "is_active" boolean)
        ∷ [])
      (uuid_primary_key_mixin ++ (tenant_owned_mixin ++ timestamp_mixin))
      (("property_id" ∷ "label" ∷ []) ∷ [])

abbrev tenant_profiles : Table
tenant_profiles =
    declared "tenant_profiles"
      (plain (required "first_name" (string 100))
        ∷ plain (required "last_name" (string 100))
        ∷ indexed (required "email" (string 320))
        ∷ plain (optional "phone" (string 40))
        ∷ [])
      (uuid_primary_key_mixin ++ (tenant_owned_mixin ++ timestamp_mixin)) ([])

abbrev leases : Table
leases =
    declared "leases"
      (indexed (referring "unit_id" "units" no_action false)
        ∷ indexed (referring "tenant_id" "tenant_profiles" no_action false)
        ∷ plain (required "starts_on" date)
        ∷ plain (optional "ends_on" date)
        ∷ plain (required "monthly_rent" (numeric 14 2))
        ∷ plain (required "deposit" (numeric 14 2))
        ∷ plain (required "status" lease_status_enum)
        ∷ [])
      (uuid_primary_key_mixin ++ (tenant_owned_mixin ++ timestamp_mixin)) ([])

abbrev invitations : Table
invitations =
    declared "invitations"
      (indexed (required "email" (string 320))
        ∷ plain (required "role" membership_role_enum)
        ∷ unique (required "token_hash" (string 64))
        ∷ plain (referring "invited_by_id" "users" no_action false)
        ∷ plain (required "expires_at" datetime)
        ∷ plain (optional "accepted_at" datetime)
        ∷ [])
      (uuid_primary_key_mixin ++ (tenant_owned_mixin ++ timestamp_mixin)) ([])

abbrev audit_logs : Table
audit_logs =
    declared "audit_logs"
      (indexed (referring "actor_user_id" "users" no_action false)
        ∷ plain (required "action" (string 100))
        ∷ plain (required "resource_type" (string 100))
        ∷ plain (required "resource_id" uuid)
        ∷ plain (required "details" json)
        ∷ plain (required "created_at" datetime)
        ∷ [])
      (uuid_primary_key_mixin ++ tenant_owned_mixin) ([])

abbrev outbox_events : Table
outbox_events =
    declared "outbox_events"
      (indexed (required "topic" (string 160))
        ∷ plain (required "payload" json)
        ∷ plain (optional "published_at" datetime)
        ∷ plain (optional "last_error" text)
        ∷ [])
      (uuid_primary_key_mixin ++ (tenant_owned_mixin ++ timestamp_mixin)) ([])

abbrev refresh_sessions : Table
refresh_sessions =
    declared "refresh_sessions"
      (indexed (referring "user_id" "users" cascade false)
        ∷ indexed (required "family_id" uuid)
        ∷ plain (required "secret_hash" (string 64))
        ∷ plain (required "expires_at" datetime)
        ∷ plain (optional "last_used_at" datetime)
        ∷ plain (optional "revoked_at" datetime)
        ∷ plain (referring "replaced_by_id" "refresh_sessions" set_null true)
        ∷ plain (optional "user_agent" (string 500))
        ∷ plain (optional "ip_address" (string 64))
        ∷ [])
      (uuid_primary_key_mixin ++ timestamp_mixin) ([])

abbrev subscriptions : Table
subscriptions =
    declared "subscriptions"
      (plain (required "provider" (string 40))
        ∷ unique (optional "provider_customer_id" (string 160))
        ∷ unique (optional "provider_subscription_id" (string 160))
        ∷ plain (required "plan" subscription_plan_enum)
        ∷ plain (required "status" subscription_status_enum)
        ∷ plain (optional "current_period_end" datetime)
        ∷ plain (required "cancel_at_period_end" boolean)
        ∷ [])
      (uuid_primary_key_mixin ++ (tenant_owned_mixin ++ timestamp_mixin))
      (("organization_id" ∷ []) ∷ [])

abbrev webhook_receipts : Table
webhook_receipts =
    declared "webhook_receipts"
      (unique_indexed (required "provider_event_id" (string 200))
        ∷ plain (required "event_type" (string 160))
        ∷ indexed (referring "organization_id" "organizations" set_null true)
        ∷ plain (required "payload_hash" (string 64))
        ∷ plain (required "processing_status" (string 20))
        ∷ plain (optional "processed_at" datetime)
        ∷ plain (optional "failure_reason" (string 500))
        ∷ plain (required "event_metadata" json)
        ∷ [])
      (uuid_primary_key_mixin ++ timestamp_mixin) ([])

abbrev work_orders : Table
work_orders =
    declared "work_orders"
      (indexed (referring "property_id" "properties" no_action false)
        ∷ indexed (referring "unit_id" "units" no_action true)
        ∷ plain (required "title" (string 180))
        ∷ plain (required "description" text)
        ∷ plain (required "priority" work_order_priority_enum)
        ∷ plain (required "status" work_order_status_enum)
        ∷ plain (referring "reported_by_id" "users" no_action false)
        ∷ indexed (referring "assigned_to_id" "users" no_action true)
        ∷ plain (optional "due_at" datetime)
        ∷ plain (optional "resolved_at" datetime)
        ∷ plain (optional "closed_at" datetime)
        ∷ [])
      (uuid_primary_key_mixin ++ (tenant_owned_mixin ++ timestamp_mixin)) ([])

abbrev work_order_comments : Table
work_order_comments =
    declared "work_order_comments"
      (indexed (referring "work_order_id" "work_orders" cascade false)
        ∷ plain (referring "author_user_id" "users" no_action false)
        ∷ plain (required "body" text)
        ∷ [])
      (uuid_primary_key_mixin ++ (tenant_owned_mixin ++ timestamp_mixin)) ([])

abbrev documents : Table
documents =
    declared "documents"
      (plain (required "file_name" (string 255))
        ∷ plain (required "content_type" (string 160))
        ∷ plain (required "size_bytes" integer)
        ∷ plain (required "checksum_sha256" (string 64))
        ∷ unique (required "storage_key" (string 500))
        ∷ plain (required "resource_type" (string 80))
        ∷ indexed (required "resource_id" uuid)
        ∷ plain (referring "uploaded_by_id" "users" no_action false)
        ∷ [])
      (uuid_primary_key_mixin ++ (tenant_owned_mixin ++ timestamp_mixin)) ([])

abbrev notifications : Table
notifications =
    declared "notifications"
      (indexed (referring "recipient_user_id" "users" no_action false)
        ∷ plain (required "category" (string 80))
        ∷ plain (required "title" (string 180))
        ∷ plain (required "body" text)
        ∷ plain (optional "resource_type" (string 80))
        ∷ plain (optional "resource_id" uuid)
        ∷ plain (optional "read_at" datetime)
        ∷ [])
      (uuid_primary_key_mixin ++ (tenant_owned_mixin ++ timestamp_mixin)) ([])

-- Base.metadata, with every class that app/db/base.py imports.
abbrev pub metadata : Catalog
metadata =
    notifications ∷ documents ∷ work_order_comments ∷ work_orders ∷ webhook_receipts ∷ subscriptions
    ∷ refresh_sessions ∷ outbox_events ∷ audit_logs ∷ invitations ∷ leases ∷ tenant_profiles ∷ units
    ∷ properties ∷ memberships ∷ organizations ∷ users ∷ []
