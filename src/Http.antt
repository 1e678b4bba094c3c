-- ===== src/Http.antt =====
-- The middleware `request_context` of app/main.py with its two metrics, GET /metrics left out, and
-- the two routes of app/api/routes/health.py. An exchange is one request with what `call_next`
-- makes of it; the names of headers are in lower case, which HTTP does not tell apart.
pub mod Metrics
pub mod Examples
use mytenancyplus.Prelude.{
  ℕ, suc, ◌-◌, String, str_eq, Bool, ◌&&◌, ◌==◌, Option, none, some, List, [], ◌∷◌, if◌then◌else◌,
}
use mytenancyplus.Transaction.{Result, ok, err, Exception, Action, pure, ◌>>◌}

abbrev pub Headers : Type 0
Headers = String → Option String

abbrev pub set_header : String → String → Headers → Headers
set_header name value headers other = if str_eq other name then some value else headers other

pub record Request : Type 0 where
  pub method : String
  pub url_path : String
  pub headers : Headers

pub record Response : Type 0 where
  pub status_code : ℕ
  pub headers : Headers

-- REQUESTS, a counter by its labels, and LATENCY, the observations by labels.
pub record Registry : Type 0 where
  pub requests : String → String → ℕ → ℕ
  pub latency : String → String → List ℕ

-- REQUESTS.labels(method, path, status).inc()
abbrev pub inc : String → String → ℕ → Registry → Registry
inc method path status metrics = record metrics {
  requests = λ m p s.
      if str_eq m method && str_eq p path && s == status
      then suc (metrics.requests m p s)
      else metrics.requests m p s;
}

-- LATENCY.labels(method, path).observe(duration)
abbrev pub observe : String → String → ℕ → Registry → Registry
observe method path duration metrics = record metrics {
  latency = λ m p.
      if str_eq m method && str_eq p path
      then duration ∷ metrics.latency m p
      else metrics.latency m p;
}

-- A request, the text of a new UUID, the two readings of the clock, the path of the route that
-- FastAPI found in the scope, and the response or the exception of `call_next`.
pub record Exchange : Type 0 where
  pub request : Request
  pub fresh_id : String
  pub started : ℕ
  pub finished : ℕ
  pub route : Option String
  pub outcome : Result Response

abbrev pub or_else : {A : Type 0} → Option A → A → A
or_else none b = b
or_else (some a) b = a

-- request.headers.get("X-Request-ID", str(uuid4()))
abbrev pub request_id : Exchange → String
request_id x = or_else (x.request.headers "x-request-id") x.fresh_id

-- getattr(route, "path", request.url.path)
abbrev pub path_of : Exchange → String
path_of x = or_else x.route x.request.url_path

abbrev pub record_response : Exchange → Registry → Result Response → Result Response × Registry
record_response x metrics (err e) = (err e, metrics)
record_response x metrics (ok response) = (
  ok (record response { headers = set_header "x-request-id" (request_id x) response.headers }),
  observe x.request.method (path_of x) (x.finished - x.started)
      (inc x.request.method (path_of x) response.status_code metrics),
)

unfoldable pub request_context : Exchange → Registry → Result Response × Registry
request_context x metrics = record_response x metrics x.outcome

-- One exchange after the other.
unfoldable pub serve : List Exchange → Registry → Registry
unfolding request_context
serve [] metrics = metrics
serve (x ∷ xs) metrics = serve xs (request_context x metrics).1

-- GET /health/live
abbrev pub liveness : Result (List (String × String))
liveness = ok (("status", "ok") ∷ [])

-- GET /health/ready, where `select_one` is the query `SELECT 1`.
abbrev pub readiness : Action (Unit {0}) → Action ℕ
readiness select_one = select_one >> pure 204
