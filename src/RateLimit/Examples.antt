-- ===== src/RateLimit/Examples.antt =====
-- The theorem on a window of the limit at three requests, of which two may pass.
use mytenancyplus.Prelude.{DateTime, String, ◌≡◌, refl, some, List, [], ◌∷◌}
use mytenancyplus.Config.{default_settings}
use mytenancyplus.RateLimit.{Counters}
use mytenancyplus.RateLimit.Window.{passed, passed-window}

abbrev no_digest : String → String
no_digest s = s

abbrev no_counts : Counters
no_counts k = 0

abbrev moments : List DateTime
moments = 60000000 ∷ 61000000 ∷ 119999999 ∷ []

passed-window_example :
    passed no_digest "auth-token"
      (some 2)
      default_settings
      (some "10.0.0.1")
      moments
      (some no_counts)
    ≡ 2
passed-window_example =
    passed-window no_digest "auth-token" (some 2) default_settings (some "10.0.0.1") moments 1
      no_counts refl (refl, (refl, (refl, tt)))
