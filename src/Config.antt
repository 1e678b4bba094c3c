-- ===== src/Config.antt =====
-- app/core/config.py: the settings that the modelled code reads, their bounds and the validator.
pub mod Secrets
pub mod Examples
use Prim.Native.String.{count}
use mytenancyplus.Prelude.{ℕ, String, Bool, true, false, ◌&&◌, ◌*◌, ltb, leb, if◌then◌else◌}
use mytenancyplus.Transaction.{Result, ok, err, Exception, validation_error}

pub data Environment : Type 0 where
  local test staging production : Environment

pub record Settings : Type 0 where
  pub environment : Environment
  pub jwt_secret : String
  pub access_token_ttl_minutes : ℕ
  pub refresh_token_ttl_days : ℕ
  pub billing_webhook_secret : String
  pub max_document_size_bytes : ℕ
  pub rate_limit_requests : ℕ
  pub rate_limit_window_seconds : ℕ

-- The defaults of the class.
abbrev pub default_settings : Settings
default_settings = record {
  environment = local;
  jwt_secret = "local-development-secret-change-me";
  access_token_ttl_minutes = 30;
  refresh_token_ttl_days = 30;
  billing_webhook_secret = "local-billing-webhook-secret";
  max_document_size_bytes = 10 * 1024 * 1024;
  rate_limit_requests = 120;
  rate_limit_window_seconds = 60;
}

-- self.environment in {"staging", "production"}
abbrev pub is_deployed : Environment → Bool
is_deployed staging = true
is_deployed production = true
is_deployed _ = false

-- The bounds of the `Field`s.
unfoldable pub fields_in_range : Settings → Bool
fields_in_range s =
    leb 5 s.access_token_ttl_minutes
    && leb s.access_token_ttl_minutes 1440
    && leb 1 s.refresh_token_ttl_days
    && leb s.refresh_token_ttl_days 365
    && leb 1024 s.max_document_size_bytes
    && leb 1 s.rate_limit_requests
    && leb 1 s.rate_limit_window_seconds
    && leb s.rate_limit_window_seconds 3600

-- The validator, which runs after the fields are read.
unfoldable pub reject_unsafe_production_secret : Settings → Result Settings
reject_unsafe_production_secret s =
    if is_deployed s.environment && ltb (count s.jwt_secret) 32
    then err (validation_error "MTP_JWT_SECRET must contain at least 32 characters")
    else if is_deployed s.environment && ltb (count s.billing_webhook_secret) 24
    then err (validation_error "MTP_BILLING_WEBHOOK_SECRET must contain at least 24 characters")
    else ok s

-- Settings(): the fields, then the validator.
unfoldable pub load_settings : Settings → Result Settings
unfolding fields_in_range reject_unsafe_production_secret
load_settings s =
    if fields_in_range s
    then reject_unsafe_production_secret s
    else err (validation_error "a setting is out of its range")
