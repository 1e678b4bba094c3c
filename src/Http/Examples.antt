-- ===== src/Http/Examples.antt =====
-- Three exchanges: a response, an exception, and a response to the same route.
use mytenancyplus.Prelude.{◌≡◌, refl, none, some, List, [], ◌∷◌}
use mytenancyplus.Prelude.Tables.{length}
use mytenancyplus.Transaction.{Result, ok, err, value_error}
use mytenancyplus.Http.{Request, Response, Registry, Headers, Exchange, serve, request_context}
use mytenancyplus.Http.Metrics.{IsAnswer, metrics_exact, request_identified}

abbrev no_headers : Headers
no_headers name = none

abbrev get : Request
get = record { method = "GET"; url_path = "/api/v1/properties"; headers = no_headers }

abbrev exchange : Result Response → Exchange
exchange outcome = record {
  request = get;
  fresh_id = "f1";
  started = 10;
  finished = 15;
  route = some "/api/v1/properties";
  outcome = outcome;
}

abbrev fine : Result Response
fine = ok (record { status_code = 200; headers = no_headers })

abbrev at_start : Registry
at_start = record { requests = λ m p s. 0; latency = λ m p. [] }

abbrev three : List Exchange
three = exchange fine ∷ exchange (err value_error) ∷ exchange fine ∷ []

metrics_exact_example :
    ((serve three at_start).requests "GET" "/api/v1/properties" 200 ≡ 2)
    × (length ((serve three at_start).latency "GET" "/api/v1/properties") ≡ 2)
metrics_exact_example = metrics_exact three at_start "GET" "/api/v1/properties" 200

one_exception :
    IsAnswer
      (exchange (err value_error))
      at_start
      (err value_error)
      (request_context (exchange (err value_error)) at_start)
one_exception = request_identified (exchange (err value_error)) at_start (err value_error) refl
