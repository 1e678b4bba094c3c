-- ===== src/Config/Secrets.antt =====
-- Which settings start the application.
use Prim.Native.String.{count}
use mytenancyplus.Prelude.{◌≤◌, ◌≡◌, true, arith}
use mytenancyplus.Transaction.{ok}
use mytenancyplus.Config.{
  Settings, default_settings, is_deployed, load_settings, fields_in_range,
  reject_unsafe_production_secret,
}

-- Settings that load are the ones that were read; they have every bounded field in range, and in
-- staging and production a signing secret of 32 characters or more and a webhook secret of 24 or
-- more.
pub load_settings_sound :
    (s t : Settings)
    → load_settings s ≡ ok t
    → (t ≡ s)
      × (5 ≤ s.access_token_ttl_minutes)
      × (s.access_token_ttl_minutes ≤ 1440)
      × (1 ≤ s.refresh_token_ttl_days)
      × (s.refresh_token_ttl_days ≤ 365)
      × (1024 ≤ s.max_document_size_bytes)
      × (1 ≤ s.rate_limit_requests)
      × (1 ≤ s.rate_limit_window_seconds)
      × (s.rate_limit_window_seconds ≤ 3600)
      × (is_deployed s.environment ≡ true
          → (32 ≤ count s.jwt_secret) × (24 ≤ count s.billing_webhook_secret))
unfolding load_settings fields_in_range reject_unsafe_production_secret
load_settings_sound s t h = ground arith

-- In production too the default secrets, which the repository publishes, pass the validator.
pub default_secrets_accepted :
    (s : Settings)
    → s.jwt_secret ≡ default_settings.jwt_secret
    → s.billing_webhook_secret ≡ default_settings.billing_webhook_secret
    → reject_unsafe_production_secret s ≡ ok s
unfolding reject_unsafe_production_secret
default_secrets_accepted s p q = rw (p, q) (ground arith)
