-- ===== src/RateLimit/Window.antt =====
-- How many requests of a client pass within a window.
use mytenancyplus.Prelude.{
  ℕ, suc, DateTime, String, ◌≡◌, ◌+◌, ◌-◌, refl, false, ==_self, eq_refl, leb, Option, some, List,
  [], ◌∷◌, arith, if◌then◌else◌,
}
use mytenancyplus.Prelude.Tables.{All, length}
use mytenancyplus.Transaction.{Result, ok, err}
use mytenancyplus.Config.{Settings}
use mytenancyplus.RateLimit.{
  Key, Counters, incr, is_test, limit_of, bucket_of, judge, key_of, enforce,
}

abbrev passes : Result (Unit {0}) → ℕ
passes (ok _) = 1
passes (err _) = 0

-- One request more, at a count of n.
one_more :
    (n l limit : ℕ)
    → passes (judge (suc n) limit) + (if leb (suc n + l) limit then l else limit - suc n)
      ≡ (if leb (n + suc l) limit then suc l else limit - n)
one_more n l limit = ground arith

module _ (subject : String → String) (scope : String) (requests : Option ℕ) (settings : Settings)
    (client : Option String) where
  -- How many of the requests at these moments pass, one after the other.
  pub passed : List DateTime → Option Counters → ℕ
  passed [] redis = 0
  passed (now ∷ later) redis =
      let (answer, next) = enforce subject scope requests settings client now redis in
      passes answer + passed later next

  abbrev pub window_key : ℕ → Key
  window_key bucket = record (key_of subject scope requests settings client 0) { bucket = bucket }

  incr_self : (key : Key) (counters : Counters) → incr key counters key ≡ suc (counters key)
  incr_self key counters = rw (eq_refl key.scope, eq_refl key.subject, ==_self key.bucket) refl

  -- Outside of the test environment and with redis at hand, as many requests of one client in one
  -- window pass as there are, or as the limit leaves above the count so far.
  pub passed-window :
      (moments : List DateTime) (bucket : ℕ) (counters : Counters)
      → is_test settings.environment ≡ false
      → All (λ now. bucket_of now settings ≡ bucket) moments
      → passed moments (some counters) ≡ (
          if leb (counters (window_key bucket) + length moments) (limit_of requests settings)
          then length moments
          else limit_of requests settings - counters (window_key bucket))
  unfolding passed enforce
  passed-window [] bucket counters live same = ground (arith, live)
  passed-window (now ∷ later) bucket counters live same =
      rw
        (
          live,
          same.0,
          incr_self (window_key bucket) counters,
          passed-window later bucket (incr (window_key bucket) counters) live same.1,
          incr_self (window_key bucket) counters,
        )
        (one_more (counters (window_key bucket)) (length later) (limit_of requests settings))
