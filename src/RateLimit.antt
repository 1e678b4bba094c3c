-- ===== src/RateLimit.antt =====
-- app/core/rate_limit.py: the fixed-window limit of a group of routes. Redis is a count for each
-- key, or `none` where it cannot be reached; the key of a bucket outlives the bucket (`expire` with
-- the window and one second), so no count is dropped while it is read. `subject` is the shortened
-- digest of the client's address.
pub mod Window
pub mod Examples
use mytenancyplus.Prelude.{
  ℕ, zero, suc, DateTime, String, Bool, true, false, not, ◌&&◌, ◌==◌, ◌/◌, ltb, str_eq, Option,
  none, some, if◌then◌else◌,
}
use mytenancyplus.Transaction.{Result, ok, err, http_exception}
use mytenancyplus.Config.{Environment, test, Settings}
use mytenancyplus.Security.Claims.{microseconds}

-- f"mytenancyplus:rate:{scope}:{subject}:{bucket}"
pub record Key : Type 0 where
  pub scope : String
  pub subject : String
  pub bucket : ℕ

abbrev pub same_key : Key → Key → Bool
same_key a b = str_eq a.scope b.scope && str_eq a.subject b.subject && a.bucket == b.bucket

abbrev pub Counters : Type 0
Counters = Key → ℕ

-- pipeline.incr(key)
abbrev pub incr : Key → Counters → Counters
incr key counters k = if same_key k key then suc (counters k) else counters k

-- settings.environment == "test"
abbrev pub is_test : Environment → Bool
is_test test = true
is_test _ = false

-- requests or settings.rate_limit_requests
abbrev pub limit_of : Option ℕ → Settings → ℕ
limit_of none settings = settings.rate_limit_requests
limit_of (some zero) settings = settings.rate_limit_requests
limit_of (some (suc n)) settings = suc n

-- int(time.time() // window)
abbrev pub bucket_of : DateTime → Settings → ℕ
bucket_of now settings = now / microseconds / settings.rate_limit_window_seconds

-- The count after the increment against the limit.
abbrev pub judge : ℕ → ℕ → Result (Unit {0})
judge count limit =
    if ltb limit count then err (http_exception 429 "Request limit exceeded") else ok tt

module _ (subject : String → String) (scope : String) (requests : Option ℕ)
    (settings : Settings) where
  -- request.client.host if request.client else "unknown"
  abbrev pub host : Option String → String
  host none = "unknown"
  host (some address) = address

  abbrev pub key_of : Option String → DateTime → Key
  key_of client now = record {
    scope = scope;
    subject = subject (host client);
    bucket = bucket_of now settings;
  }

  abbrev pub enforce_in : Key → Option Counters → Result (Unit {0}) × Option Counters
  enforce_in key none = (ok tt, none)
  enforce_in key (some counters) =
      (judge (incr key counters key) (limit_of requests settings), some (incr key counters))

  unfoldable pub enforce :
      Option String → DateTime → Option Counters → Result (Unit {0}) × Option Counters
  enforce client now redis =
      if is_test settings.environment then (ok tt, redis) else enforce_in (key_of client now) redis
