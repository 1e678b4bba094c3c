-- ===== src/Config/Examples.antt =====
-- The default settings.
use mytenancyplus.Prelude.{◌≡◌, refl}
use mytenancyplus.Transaction.{ok}
use mytenancyplus.Config.{Settings, default_settings, load_settings, production}

-- The defaults, in production.
abbrev deployed : Settings
deployed = record default_settings { environment = production }

deployed_loads : load_settings deployed ≡ ok deployed
unfolding load_settings
deployed_loads = refl
