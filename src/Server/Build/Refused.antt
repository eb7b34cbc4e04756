-- ===== src/Server/Build/Refused.antt =====
-- Requests that the chain of server/server.go refuses or that panic.
use tgju_api_go.Common.{false, List, [], ◌∷◌, none, some, codes, ◌≡◌, refl, ap, ◌∙◌, text_eq}
use tgju_api_go.Errors.{as_api}
use tgju_api_go.Server.Render.{write_error, classify, status_for_code, message, code_internal}
use tgju_api_go.Server.Guard.{
  Response, set_header, write_json, or_status, chain, is_read, not_allowed, allow_origin,
}
use tgju_api_go.Server.Guard.Methods.{origins_of, origins_of-not_allowed, read_only-write}
use tgju_api_go.Server.Guard.Headers.{values_of-set_other}
use tgju_api_go.Server.Handlers.{Service}
use tgju_api_go.Server.Stages.{
  State, Visit, answered, panicked, other_panic, Stage, finish, write_api_error, recoverer,
  recovered, request_id, id_of, with_id, access_log, logged, counted, only_reads,
}
use tgju_api_go.Server.Router.{mux}
use tgju_api_go.Server.Build.{ServerConfig, Platform, optional_layers, inner_layers, build}

-- the request, the response and the state that `build` hands to what stands behind accessLog
abbrev pub inner_visit : Visit → Visit
inner_visit v = with_id (id_of v) v

abbrev pub inner_response : Visit → Response → Response
inner_response v w = set_header (codes "X-Request-Id") (id_of v) w

abbrev pub inner_state : State → State
inner_state st = record st { route = [] }

-- what the three outer middlewares make of what stands behind them
pub outer_eq :
    (pf : Platform) (h : Stage) (v : Visit) (w : Response) (st : State)
    → recoverer (request_id (access_log pf.sec h)) v w st
      ≡ recovered v
          (logged pf.sec (inner_visit v) (h (inner_visit v) (inner_response v w) (inner_state st)))
unfolding recoverer request_id access_log
outer_eq pf h v w st = refl

chain_eq :
    (h : Stage) (mws : List (Stage → Stage)) → chain h (only_reads ∷ mws) ≡ only_reads (chain h mws)
unfolding chain
chain_eq h mws = refl

only_reads-write :
    (h : Stage) (v : Visit) (w : Response) (st : State)
    → is_read v.request.method ≡ false
    → only_reads h v w st ≡ answered (not_allowed v.request w) st
unfolding only_reads
only_reads-write h v w st m = ap (λ k. k st) (read_only-write finish (λ r w'. h v w') v.request w m)

pub build_eq :
    {Logger Clock : Type 0} (pf : Platform) (cfg : ServerConfig Logger Clock) (s : Service)
    → build pf cfg s
      ≡ recoverer (request_id (access_log pf.sec (chain (mux s cfg.metrics) (inner_layers pf cfg))))
unfolding build
build_eq pf cfg s = refl

id_apart : text_eq (codes "X-Request-Id") allow_origin ≡ false
unfolding text_eq
id_apart = refl

-- A request that is no read, with nothing sent yet, is answered with 405 whatever the settings, and it
-- costs the client no token: the limiter is left as it is. No origin is allowed that was not before.
pub build-write :
    {Logger Clock : Type 0} (pf : Platform) (cfg : ServerConfig Logger Clock) (s : Service)
    (v : Visit) (w : Response) (st : State)
    → is_read v.request.method ≡ false
    → w.status ≡ none
    → (w' : Response) × (after : State) × (build pf cfg s v w st ≡ answered w' after)
      × (w'.status ≡ some 405)
      × (after.limiter ≡ st.limiter)
      × (origins_of w'.headers ≡ origins_of w.headers)
build-write pf cfg s v w st m n =
    let w' = not_allowed (inner_visit v).request (inner_response v w) in
    let h = chain (mux s cfg.metrics) (inner_layers pf cfg) in
    (
      w',
      record st { route = []; metrics = counted pf.sec (inner_visit v) w' (inner_state st) },
      ap (λ (g : Stage). g v w st) (build_eq pf cfg s)
          ∙ outer_eq pf h v w st
          ∙ ap (λ o. recovered v (logged pf.sec (inner_visit v) o))
              (ap (λ (g : Stage). g (inner_visit v) (inner_response v w) (inner_state st))
                  (chain_eq (mux s cfg.metrics) (optional_layers pf cfg))
                ∙ only_reads-write (chain (mux s cfg.metrics) (optional_layers pf cfg))
                    (inner_visit v) (inner_response v w) (inner_state st) m),
      ap (λ o. or_status o 405) n,
      refl,
      origins_of-not_allowed (inner_visit v).request (inner_response v w)
          ∙ values_of-set_other allow_origin (codes "X-Request-Id") id_apart (id_of v) w,
    )

internal_eq :
    (v : Visit) (w : Response)
    → write_api_error code_internal (codes "internal error") v w
      ≡ write_json 500
          (record {
            code = code_internal;
            message = codes "internal error";
            request_id = v.request.request_id;
          })
          w
unfolding write_error classify as_api status_for_code message
internal_eq v w = refl

-- Where a handler panics behind accessLog, other than to abort, with nothing sent yet, the answer is a
-- 500 whose body names the id that the request came with in its context, not the one that it got, and
-- the request is not counted: the metrics are those that the handler left.
pub panic-unnamed :
    (pf : Platform) (h : Stage) (v : Visit) (w left : Response) (st after : State)
    → h (inner_visit v) (inner_response v w) (inner_state st) ≡ panicked other_panic left after
    → left.status ≡ none
    → (w' : Response) × (recoverer (request_id (access_log pf.sec h)) v w st ≡ answered w' after)
      × (w'.status ≡ some 500)
      × (w'.failure
          ≡ some (record {
            code = code_internal;
            message = codes "internal error";
            request_id = v.request.request_id;
          }))
panic-unnamed pf h v w left st after p n = (
  write_json 500
      (record {
        code = code_internal;
        message = codes "internal error";
        request_id = v.request.request_id;
      })
      left,
  outer_eq pf h v w st
      ∙ ap (λ o. recovered v (logged pf.sec (inner_visit v) o)) p
      ∙ ap (λ x. answered x after) (internal_eq v left),
  ap (λ o. or_status o 500) n,
  refl,
)
