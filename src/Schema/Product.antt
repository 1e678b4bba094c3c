-- ===== src/Schema/Product.antt =====
-- migrations/versions/0002_product_operations.py: sessions, billing, maintenance, documents and
-- notifications.
use mytenancyplus.Prelude.{String, str_eq, true, false, List, [], ◌∷◌, ◌++◌, if◌then◌else◌}
use mytenancyplus.Schema.{
  ColumnType, uuid, string, text, boolean, integer, datetime, json, enum, no_action, cascade,
  set_null, key_column, required, optional, referring, Column, Element, column, unique_column,
  unique_constraint, Operation, create_table, create_index, secure_tables, drop_tables,
}

abbrev subscription_plan : ColumnType
subscription_plan = enum "subscriptionplan" ("STARTER" ∷ "GROWTH" ∷ "SCALE" ∷ [])

abbrev subscription_status : ColumnType
subscription_status =
    enum "subscriptionstatus" ("TRIALING" ∷ "ACTIVE" ∷ "PAST_DUE" ∷ "CANCELLED" ∷ [])

abbrev work_order_priority : ColumnType
work_order_priority = enum "workorderpriority" ("LOW" ∷ "NORMAL" ∷ "HIGH" ∷ "URGENT" ∷ [])

abbrev work_order_status : ColumnType
work_order_status =
    enum "workorderstatus"
      ("OPEN" ∷ "TRIAGED" ∷ "IN_PROGRESS" ∷ "RESOLVED" ∷ "CLOSED" ∷ "CANCELLED" ∷ [])

-- TENANT_TABLES
abbrev pub tenant_tables : List String
tenant_tables =
    "subscriptions" ∷ "work_orders" ∷ "work_order_comments" ∷ "documents" ∷ "notifications" ∷ []

abbrev identifiers : List Element
identifiers =
    column (key_column "id" uuid)
    ∷ column (required "created_at" datetime)
    ∷ column (required "updated_at" datetime)
    ∷ []

abbrev organization_id : Column
organization_id = referring "organization_id" "organizations" cascade false

abbrev pub refresh_sessions_columns : List Element
refresh_sessions_columns =
    identifiers
    ++ (column (referring "user_id" "users" cascade false)
        ∷ column (required "family_id" uuid)
        ∷ column (required "secret_hash" (string 64))
        ∷ column (required "expires_at" datetime)
        ∷ column (optional "last_used_at" datetime)
        ∷ column (optional "revoked_at" datetime)
        ∷ column (referring "replaced_by_id" "refresh_sessions" set_null true)
        ∷ column (optional "user_agent" (string 500))
        ∷ column (optional "ip_address" (string 64))
        ∷ [])

abbrev pub subscriptions_columns : List Element
subscriptions_columns =
    identifiers
    ++ (column organization_id
        ∷ column (required "provider" (string 40))
        ∷ unique_column (optional "provider_customer_id" (string 160))
        ∷ unique_column (optional "provider_subscription_id" (string 160))
        ∷ column (required "plan" subscription_plan)
        ∷ column (required "status" subscription_status)
        ∷ column (optional "current_period_end" datetime)
        ∷ column (required "cancel_at_period_end" boolean)
        ∷ unique_constraint ("organization_id" ∷ [])
        ∷ [])

abbrev pub webhook_receipts_columns : List Element
webhook_receipts_columns =
    identifiers
    ++ (column (required "provider_event_id" (string 200))
        ∷ column (required "event_type" (string 160))
        ∷ column (referring "organization_id" "organizations" set_null true)
        ∷ column (required "payload_hash" (string 64))
        ∷ column (required "processing_status" (string 20))
        ∷ column (optional "processed_at" datetime)
        ∷ column (optional "failure_reason" (string 500))
        ∷ column (required "event_metadata" json)
        ∷ [])

abbrev pub work_orders_columns : List Element
work_orders_columns =
    identifiers
    ++ (column organization_id
        ∷ column (referring "property_id" "properties" no_action false)
        ∷ column (referring "unit_id" "units" no_action true)
        ∷ column (required "title" (string 180))
        ∷ column (required "description" text)
        ∷ column (required "priority" work_order_priority)
        ∷ column (required "status" work_order_status)
        ∷ column (referring "reported_by_id" "users" no_action false)
        ∷ column (referring "assigned_to_id" "users" no_action true)
        ∷ column (optional "due_at" datetime)
        ∷ column (optional "resolved_at" datetime)
        ∷ column (optional "closed_at" datetime)
        ∷ [])

abbrev pub work_order_comments_columns : List Element
work_order_comments_columns =
    identifiers
    ++ (column organization_id
        ∷ column (referring "work_order_id" "work_orders" cascade false)
        ∷ column (referring "author_user_id" "users" no_action false)
        ∷ column (required "body" text)
        ∷ [])

abbrev pub documents_columns : List Element
documents_columns =
    identifiers
    ++ (column organization_id
        ∷ column (required "file_name" (string 255))
        ∷ column (required "content_type" (string 160))
        ∷ column (required "size_bytes" integer)
        ∷ column (required "checksum_sha256" (string 64))
        ∷ unique_column (required "storage_key" (string 500))
        ∷ column (required "resource_type" (string 80))
        ∷ column (required "resource_id" uuid)
        ∷ column (referring "uploaded_by_id" "users" no_action false)
        ∷ [])

abbrev pub notifications_columns : List Element
notifications_columns =
    identifiers
    ++ (column organization_id
        ∷ column (referring "recipient_user_id" "users" no_action false)
        ∷ column (required "category" (string 80))
        ∷ column (required "title" (string 180))
        ∷ column (required "body" text)
        ∷ column (optional "resource_type" (string 80))
        ∷ column (optional "resource_id" uuid)
        ∷ column (optional "read_at" datetime)
        ∷ [])

-- The tables and indexes of upgrade.
abbrev pub create_all : List Operation
create_all =
    create_table "refresh_sessions" refresh_sessions_columns
    ∷ create_index "refresh_sessions"
        (record { name = "ix_refresh_sessions_user_id"; columns = "user_id" ∷ []; unique = false })
    ∷ create_index "refresh_sessions" (record {
      name = "ix_refresh_sessions_family_id";
      columns = "family_id" ∷ [];
      unique = false;
    })
    ∷ create_table "subscriptions" subscriptions_columns
    ∷ create_index "subscriptions" (record {
      name = "ix_subscriptions_organization_id";
      columns = "organization_id" ∷ [];
      unique = false;
    })
    ∷ create_table "webhook_receipts" webhook_receipts_columns
    ∷ create_index "webhook_receipts" (record {
      name = "ix_webhook_receipts_provider_event_id";
      columns = "provider_event_id" ∷ [];
      unique = true;
    })
    ∷ create_index "webhook_receipts" (record {
      name = "ix_webhook_receipts_organization_id";
      columns = "organization_id" ∷ [];
      unique = false;
    })
    ∷ create_table "work_orders" work_orders_columns
    ∷ create_index "work_orders" (record {
      name = "ix_work_orders_organization_id";
      columns = "organization_id" ∷ [];
      unique = false;
    })
    ∷ create_index "work_orders" (record {
      name = "ix_work_orders_property_id";
      columns = "property_id" ∷ [];
      unique = false;
    })
    ∷ create_index "work_orders"
        (record { name = "ix_work_orders_unit_id"; columns = "unit_id" ∷ []; unique = false })
    ∷ create_index "work_orders" (record {
      name = "ix_work_orders_assigned_to_id";
      columns = "assigned_to_id" ∷ [];
      unique = false;
    })
    ∷ create_table "work_order_comments" work_order_comments_columns
    ∷ create_index "work_order_comments" (record {
      name = "ix_work_order_comments_organization_id";
      columns = "organization_id" ∷ [];
      unique = false;
    })
    ∷ create_index "work_order_comments" (record {
      name = "ix_work_order_comments_work_order_id";
      columns = "work_order_id" ∷ [];
      unique = false;
    })
    ∷ create_table "documents" documents_columns
    ∷ create_index "documents" (record {
      name = "ix_documents_organization_id";
      columns = "organization_id" ∷ [];
      unique = false;
    })
    ∷ create_index "documents"
        (record { name = "ix_documents_resource_id"; columns = "resource_id" ∷ []; unique = false })
    ∷ create_table "notifications" notifications_columns
    ∷ create_index "notifications" (record {
      name = "ix_notifications_organization_id";
      columns = "organization_id" ∷ [];
      unique = false;
    })
    ∷ create_index "notifications" (record {
      name = "ix_notifications_recipient_user_id";
      columns = "recipient_user_id" ∷ [];
      unique = false;
    })
    ∷ []

-- upgrade(), for the name of the dialect.
unfoldable pub upgrade : String → List Operation
upgrade dialect =
    create_all ++ (if str_eq dialect "postgresql" then secure_tables tenant_tables else [])

unfoldable pub downgrade : List Operation
downgrade = drop_tables (
    "notifications" ∷ "documents" ∷ "work_order_comments" ∷ "work_orders" ∷ "webhook_receipts"
    ∷ "subscriptions" ∷ "refresh_sessions" ∷ [])
