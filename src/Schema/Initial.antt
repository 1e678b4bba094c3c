-- ===== src/Schema/Initial.antt =====
-- migrations/versions/0001_initial.py: the tables of organizations, properties and leases.
use mytenancyplus.Prelude.{String, str_eq, true, false, List, [], ◌∷◌, ◌++◌, if◌then◌else◌}
use mytenancyplus.Schema.{
  ColumnType, uuid, string, text, boolean, integer, numeric, date, datetime, json, enum, no_action,
  cascade, key_column, required, optional, referring, Column, Element, column, unique_constraint,
  Operation, create_table, create_index, secure_tables, drop_tables,
}

abbrev membership_role : ColumnType
membership_role = enum "membershiprole" ("OWNER" ∷ "ADMIN" ∷ "MANAGER" ∷ "VIEWER" ∷ [])

abbrev membership_status : ColumnType
membership_status = enum "membershipstatus" ("ACTIVE" ∷ "SUSPENDED" ∷ [])

abbrev lease_status : ColumnType
lease_status = enum "leasestatus" ("DRAFT" ∷ "ACTIVE" ∷ "ENDED" ∷ "CANCELLED" ∷ [])

-- TENANT_TABLES
abbrev pub tenant_tables : List String
tenant_tables =
    "properties" ∷ "units" ∷ "tenant_profiles" ∷ "leases" ∷ "invitations" ∷ "audit_logs" ∷ []

abbrev identifiers : List Element
identifiers =
    column (key_column "id" uuid)
    ∷ column (required "created_at" datetime)
    ∷ column (required "updated_at" datetime)
    ∷ []

abbrev organization_id : Column
organization_id = referring "organization_id" "organizations" cascade false

abbrev pub users_columns : List Element
users_columns =
    identifiers
    ++ (column (required "email" (string 320))
        ∷ column (required "full_name" (string 200))
        ∷ column (required "password_hash" (string 500))
        ∷ column (required "is_active" boolean)
        ∷ [])

abbrev pub organizations_columns : List Element
organizations_columns =
    identifiers
    ++ (column (required "name" (string 160))
        ∷ column (required "slug" (string 100))
        ∷ column (referring "created_by_id" "users" no_action false)
        ∷ [])

abbrev pub memberships_columns : List Element
memberships_columns =
    identifiers
    ++ (column organization_id
        ∷ column (referring "user_id" "users" cascade false)
        ∷ column (required "role" membership_role)
        ∷ column (required "status" membership_status)
        ∷ unique_constraint ("organization_id" ∷ "user_id" ∷ [])
        ∷ [])

abbrev pub properties_columns : List Element
properties_columns =
    identifiers
    ++ (column organization_id
        ∷ column (required "name" (string 180))
        ∷ column (required "address_line" (string 300))
        ∷ column (required "city" (string 100))
        ∷ column (required "country_code" (string 2))
        ∷ [])

abbrev pub units_columns : List Element
units_columns =
    identifiers
    ++ (column organization_id
        ∷ column (referring "property_id" "properties" cascade false)
        ∷ column (required "label" (string 80))
        ∷ column (required "bedrooms" integer)
        ∷ column (required "monthly_rent" (numeric 14 2))
        ∷ column (required "currency" (string 3))
        ∷ column (required "is_active" boolean)
        ∷ unique_constraint ("property_id" ∷ "label" ∷ [])
        ∷ [])

abbrev pub tenant_profiles_columns : List Element
tenant_profiles_columns =
    identifiers
    ++ (column organization_id
        ∷ column (required "first_name" (string 100))
        ∷ column (required "last_name" (string 100))
        ∷ column (required "email" (string 320))
        ∷ column (optional "phone" (string 40))
        ∷ [])

abbrev pub leases_columns : List Element
leases_columns =
    identifiers
    ++ (column organization_id
        ∷ column (referring "unit_id" "units" no_action false)
        ∷ column (referring "tenant_id" "tenant_profiles" no_action false)
        ∷ column (required "starts_on" date)
        ∷ column (optional "ends_on" date)
        ∷ column (required "monthly_rent" (numeric 14 2))
        ∷ column (required "deposit" (numeric 14 2))
        ∷ column (required "status" lease_status)
        ∷ [])

abbrev pub invitations_columns : List Element
invitations_columns =
    identifiers
    ++ (column organization_id
        ∷ column (required "email" (string 320))
        ∷ column (required "role" membership_role)
        ∷ column (required "token_hash" (string 64))
        ∷ column (referring "invited_by_id" "users" no_action false)
        ∷ column (required "expires_at" datetime)
        ∷ column (optional "accepted_at" datetime)
        ∷ unique_constraint ("token_hash" ∷ [])
        ∷ [])

abbrev pub audit_logs_columns : List Element
audit_logs_columns =
    column (key_column "id" uuid)
    ∷ column organization_id
    ∷ column (referring "actor_user_id" "users" no_action false)
    ∷ column (required "action" (string 100))
    ∷ column (required "resource_type" (string 100))
    ∷ column (required "resource_id" uuid)
    ∷ column (required "details" json)
    ∷ column (required "created_at" datetime)
    ∷ []

abbrev pub outbox_events_columns : List Element
outbox_events_columns =
    identifiers
    ++ (column organization_id
        ∷ column (required "topic" (string 160))
        ∷ column (required "payload" json)
        ∷ column (optional "published_at" datetime)
        ∷ column (optional "last_error" text)
        ∷ [])

-- The tables and indexes of upgrade.
abbrev pub create_all : List Operation
create_all =
    create_table "users" users_columns
    ∷ create_index "users"
        (record { name = "ix_users_email"; columns = "email" ∷ []; unique = true })
    ∷ create_table "organizations" organizations_columns
    ∷ create_index "organizations"
        (record { name = "ix_organizations_slug"; columns = "slug" ∷ []; unique = true })
    ∷ create_table "memberships" memberships_columns
    ∷ create_index "memberships" (record {
      name = "ix_memberships_organization_id";
      columns = "organization_id" ∷ [];
      unique = false;
    })
    ∷ create_index "memberships"
        (record { name = "ix_memberships_user_id"; columns = "user_id" ∷ []; unique = false })
    ∷ create_table "properties" properties_columns
    ∷ create_index "properties" (record {
      name = "ix_properties_organization_id";
      columns = "organization_id" ∷ [];
      unique = false;
    })
    ∷ create_table "units" units_columns
    ∷ create_index "units" (record {
      name = "ix_units_organization_id";
      columns = "organization_id" ∷ [];
      unique = false;
    })
    ∷ create_index "units"
        (record { name = "ix_units_property_id"; columns = "property_id" ∷ []; unique = false })
    ∷ create_table "tenant_profiles" tenant_profiles_columns
    ∷ create_index "tenant_profiles" (record {
      name = "ix_tenant_profiles_organization_id";
      columns = "organization_id" ∷ [];
      unique = false;
    })
    ∷ create_index "tenant_profiles"
        (record { name = "ix_tenant_profiles_email"; columns = "email" ∷ []; unique = false })
    ∷ create_table "leases" leases_columns
    ∷ create_index "leases" (record {
      name = "ix_leases_organization_id";
      columns = "organization_id" ∷ [];
      unique = false;
    })
    ∷ create_index "leases"
        (record { name = "ix_leases_unit_id"; columns = "unit_id" ∷ []; unique = false })
    ∷ create_index "leases"
        (record { name = "ix_leases_tenant_id"; columns = "tenant_id" ∷ []; unique = false })
    ∷ create_table "invitations" invitations_columns
    ∷ create_index "invitations" (record {
      name = "ix_invitations_organization_id";
      columns = "organization_id" ∷ [];
      unique = false;
    })
    ∷ create_index "invitations"
        (record { name = "ix_invitations_email"; columns = "email" ∷ []; unique = false })
    ∷ create_table "audit_logs" audit_logs_columns
    ∷ create_index "audit_logs" (record {
      name = "ix_audit_logs_organization_id";
      columns = "organization_id" ∷ [];
      unique = false;
    })
    ∷ create_index "audit_logs" (record {
      name = "ix_audit_logs_actor_user_id";
      columns = "actor_user_id" ∷ [];
      unique = false;
    })
    ∷ create_table "outbox_events" outbox_events_columns
    ∷ create_index "outbox_events" (record {
      name = "ix_outbox_events_organization_id";
      columns = "organization_id" ∷ [];
      unique = false;
    })
    ∷ create_index "outbox_events"
        (record { name = "ix_outbox_events_topic"; columns = "topic" ∷ []; unique = false })
    ∷ []

-- upgrade(), for the name of the dialect.
unfoldable pub upgrade : String → List Operation
upgrade dialect =
    create_all ++ (if str_eq dialect "postgresql" then secure_tables tenant_tables else [])

unfoldable pub downgrade : List Operation
downgrade = drop_tables (
    "outbox_events" ∷ "audit_logs" ∷ "invitations" ∷ "leases" ∷ "tenant_profiles" ∷ "units"
    ∷ "properties" ∷ "memberships" ∷ "organizations" ∷ "users" ∷ [])
