-- ===== src/Http/Metrics.antt =====
-- What the metrics count.
use mytenancyplus.Prelude.{
  ℕ, suc, ◌+◌, String, str_eq, Bool, true, false, ◌&&◌, ◌==◌, ◌≡◌, refl, List, [], ◌∷◌,
  if◌then◌else◌, arith, some,
}
use mytenancyplus.Prelude.Tables.{count_where, length}
use mytenancyplus.Transaction.{Result, ok, err}
use mytenancyplus.Http.{Response, Registry, Exchange, request_id, path_of, request_context, serve}

abbrev pub answered : String → String → Exchange → Result Response → Bool
answered method path x (err e) = false
answered method path x (ok response) = str_eq method x.request.method && str_eq path (path_of x)

-- The exchange had a response with the labels.
abbrev pub responded : String → String → ℕ → Exchange → Result Response → Bool
responded method path status x (err e) = false
responded method path status x (ok response) =
    str_eq method x.request.method && str_eq path (path_of x) && status == response.status_code

-- What is to come of an exchange.
abbrev pub IsAnswer : Exchange → Registry → Result Response → Result Response × Registry → Type 0
IsAnswer x metrics (err e) result = result ≡ (err e, metrics)
IsAnswer x metrics (ok response) (err e, after) = ⊥
IsAnswer x metrics (ok response) (ok answer, after) =
    (answer.status_code ≡ response.status_code)
    × (answer.headers "x-request-id" ≡ some (request_id x))

length_if :
    (b : Bool) (n : ℕ) (ns : List ℕ)
    → length (if b then n ∷ ns else ns) ≡ (if b then suc (length ns) else length ns)
length_if true n ns = refl
length_if false n ns = refl

add_if : (b : Bool) (m n : ℕ) → m + (if b then suc n else n) ≡ (if b then suc m else m) + n
add_if true m n = omega arith
add_if false m n = omega arith

after_one :
    (method path : String) (status : ℕ) (x : Exchange) (metrics : Registry) (r : Result Response)
    → x.outcome ≡ r
    → ((request_context x metrics).1.requests method path status ≡ (
        if responded method path status x r
        then suc (metrics.requests method path status)
        else metrics.requests method path status))
      × (length ((request_context x metrics).1.latency method path) ≡ (
          if answered method path x r
          then suc (length (metrics.latency method path))
          else length (metrics.latency method path)))
unfolding request_context
after_one method path status x metrics (err e) h = rw h (refl, refl)
after_one method path status x metrics (ok response) h =
    rw h (refl, length_if (str_eq method x.request.method && str_eq path (path_of x)) _ _)

-- Over any run of exchanges, each counter of http_requests_total grows by the number of responses with
-- its labels, each histogram by the number of responses to its method and path; exceptions
-- count nowhere.
pub metrics_exact :
    (xs : List Exchange) (metrics : Registry) (method path : String) (status : ℕ)
    → ((serve xs metrics).requests method path status
        ≡ count_where (λ x. responded method path status x x.outcome) xs
          + metrics.requests method path status)
      × (length ((serve xs metrics).latency method path)
          ≡ count_where (λ x. answered method path x x.outcome) xs
            + length (metrics.latency method path))
unfolding serve
metrics_exact [] metrics method path status = (omega arith, omega arith)
metrics_exact (x ∷ xs) metrics method path status =
    let (total, observed) = metrics_exact xs (request_context x metrics).1 method path status in
    let (counted, timed) = after_one method path status x metrics x.outcome refl in
    (
      rw (total, counted) (add_if (responded method path status x x.outcome) _ _),
      rw (observed, timed) (add_if (answered method path x x.outcome) _ _),
    )

-- A response carries the X-Request-ID of its request, or the fresh one where it has none; an
-- exception goes out as it came, without being counted.
pub request_identified :
    (x : Exchange) (metrics : Registry) (r : Result Response)
    → x.outcome ≡ r
    → IsAnswer x metrics r (request_context x metrics)
unfolding request_context
request_identified x metrics (err e) h = rw h refl
request_identified x metrics (ok response) h = rw h (refl, refl)
