-- ===== src/Server/Stages.antt =====
-- The middlewares of server/middleware.go that keep or change a state of the service, recordRoute, and
-- writeJSON and writeError of server/render.go as they write on a response. A handler that panics ends
-- with the panic as a value. The clock, the minted id and the operations on floats are parameters.
pub mod Named
pub mod Kept
pub mod Reads
use tgju_api_go.Common.{
  ℕ, ◌+◌, ◌-◌, max, Bool, true, false, List, [], ◌∷◌, ◌++◌, Option, none, some, Text, codes, ltb,
  min, if◌then◌else◌, is_nil,
}
use tgju_api_go.Strings.{decimal}
use tgju_api_go.Floats.{Float64}
use tgju_api_go.Errors.{ApiError, api}
use tgju_api_go.Server.Render.{Failure, write_error, code_internal, code_rate_limited}
use tgju_api_go.Server.Guard.{
  Request, Response, set_header, write_header, write_json, read_only, cors, client_of,
  sanitise_request_id,
}
use tgju_api_go.Server.Limiter.{Arith, RateLimiter, allow}
use tgju_api_go.Server.Metrics.{since, Seconds, Metrics, observe}
use tgju_api_go.Server.Filter.{Query}
use tgju_api_go.Server.Handlers.{Body}

-- what the requests share, the pattern in the request's routeHolder, and the body written last
pub record State : Type 0 where
  pub metrics : Metrics
  pub limiter : RateLimiter
  pub route : Text
  pub body : Option Body

-- A request as it goes through the chain: what the middlewares read, with the id that the context
-- holds; the header X-Request-Id; the id that newRequestID would make; the segments of the path, the
-- query; the path that net/http cleans the path to, where that is another one; the clock when accessLog starts and ends and when the limiter reads it; the deadline.
pub record Visit : Type 0 where
  pub request : Request
  pub sent_id : Text
  pub minted : Text
  pub path : List Text
  pub query : Query
  pub moved : Option Text
  pub started : ℕ
  pub admitted : ℕ
  pub ended : ℕ
  pub deadline : Option ℕ

-- http.ErrAbortHandler, and every other value
pub data Panic : Type 0 where
  abort_handler other_panic : Panic

pub data Outcome : Type 0 where
  answered : Response → State → Outcome
  panicked : Panic → Response → State → Outcome

abbrev pub Stage : Type 0
Stage = Visit → Response → State → Outcome

abbrev pub finish : Response → State → Outcome
finish w st = answered w st

-- writeError of an APIError
abbrev pub write_api_error : Text → Text → Visit → Response → Response
write_api_error code message v w =
    let e = write_error v.request.request_id (api (record { code = code; message = message })) in
    write_json e.0.0 e.0.1 w

unfoldable pub record_route : Text → Stage → Stage
record_route pattern h v w st = h v w (record st { route = pattern })

abbrev pub recovered : Visit → Outcome → Outcome
recovered v (answered w st) = answered w st
recovered v (panicked abort_handler w st) = panicked abort_handler w st
recovered v (panicked other_panic w st) =
    answered (write_api_error code_internal (codes "internal error") v w) st

unfoldable pub recoverer : Stage → Stage
unfolding write_error
recoverer next v w st = recovered v (next v w st)

abbrev pub id_or : Text → Text → Text
id_or minted [] = minted
id_or minted (c ∷ id) = c ∷ id

unfoldable pub id_of : Visit → Text
unfolding sanitise_request_id
id_of v = id_or v.minted (sanitise_request_id v.sent_id)

abbrev pub with_id : Text → Visit → Visit
with_id id v = record v { request = record (v.request) { request_id = id } }

unfoldable pub request_id : Stage → Stage
unfolding id_of
request_id next v w st =
    next (with_id (id_of v) v) (set_header (codes "X-Request-Id") (id_of v) w) st

-- the status of the recorder around a response
abbrev pub status_or_ok : Option ℕ → ℕ
status_or_ok none = 200
status_or_ok (some n) = n

abbrev pub route_or_unmatched : Text → Text
route_or_unmatched [] = codes "unmatched"
route_or_unmatched (c ∷ r) = c ∷ r

module _ (sec : Seconds) where
  -- `observe`, of what came back
  abbrev pub counted : Visit → Response → State → Metrics
  counted v w st =
      observe sec
        (record {
          key = record {
            route = route_or_unmatched st.route;
            method = v.request.method;
            status = status_or_ok w.status;
          };
          elapsed = since v.ended v.started;
        })
        st.metrics

  abbrev pub logged : Visit → Outcome → Outcome
  logged v (panicked p w st) = panicked p w st
  logged v (answered w st) = answered w (record st { metrics = counted v w st })

  unfoldable pub access_log : Stage → Stage
  unfolding observe
  access_log next v w st = logged v (next v w (record st { route = [] }))

unfoldable pub only_reads : Stage → Stage
unfolding read_only
only_reads next v w st = read_only finish (λ r w'. next v w') v.request w st

unfoldable pub cross_origin : List Text → Stage → Stage
unfolding cors
cross_origin origins next v w st = cors finish origins (λ r w'. next v w') v.request w st

abbrev pub too_many : Text
too_many = codes "too many requests; slow down or run your own instance"

-- net.SplitHostPort and int(1 / rate)
module _ (ar : Arith) (split_host_port : Text → Option Text) (pause : Float64 → ℕ) where
  abbrev pub throttled : ℕ → Visit → Response → Response
  throttled seconds v w =
      write_api_error code_rate_limited too_many v
        (set_header (codes "Retry-After") (decimal (max seconds 1)) w)

  abbrev pub limited_by : Stage → Visit → Response → State → Bool × RateLimiter → Outcome
  limited_by next v w st (true, l) = next v w (record st { limiter = l })
  limited_by next v w st (false, l) =
      answered (throttled (pause l.rate) v w) (record st { limiter = l })

  unfoldable pub limit : Stage → Stage
  unfolding allow client_of write_error decimal
  limit next v w st =
      limited_by next v w st (allow ar v.admitted (client_of split_host_port v.request) st.limiter)

-- the earlier deadline counts
abbrev pub earlier : ℕ → Option ℕ → Option ℕ
earlier at none = some at
earlier at (some old) = some (min at old)

unfoldable pub timeout : ℕ → Stage → Stage
timeout d next v w st = next (record v { deadline = earlier (v.admitted + d) v.deadline }) w st
