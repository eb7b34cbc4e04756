-- ===== src/Server/Stages/Kept.antt =====
-- The stages of server/middleware.go that end with a response, which leave the metrics and the header
-- X-Request-Id as they are.
use tgju_api_go.Common.{
  ℕ, max, Bool, true, false, not, List, [], ◌∷◌, Option, Text, codes, ◌≡◌, refl, ◌∙◌, ◌&&◌,
  if◌then◌else◌, is_nil, text_eq, All,
}
use tgju_api_go.Floats.{Float64}
use tgju_api_go.Server.Render.{code_rate_limited}
use tgju_api_go.Server.Guard.{
  Response, chain, not_allowed, negotiate, preflight, is_read, client_of, set_header,
}
use tgju_api_go.Server.Limiter.{Arith, RateLimiter, allow}
use tgju_api_go.Strings.{decimal}
use tgju_api_go.Server.Stages.Named.{
  ids, ids-write_api_error, ids-not_allowed, ids-negotiate, ids-preflight, ids-set_retry,
}
use tgju_api_go.Server.Stages.{
  State, Visit, Outcome, answered, Stage, finish, record_route, only_reads, cross_origin, limit,
  limited_by, throttled, too_many, timeout,
}

-- a response, with the metrics of the state `st` and the ids of the response `w`
abbrev pub Settled : Response → State → Outcome → Type 0
Settled w st o =
    (w' : Response) × (after : State) × (o ≡ answered w' after)
    × (after.metrics ≡ st.metrics)
    × (ids w' ≡ ids w)

-- from a response with the same ids
pub Settled-ids :
    (w u : Response) (st : State) (o : Outcome) → ids u ≡ ids w → Settled u st o → Settled w st o
Settled-ids w u st o e s = (s.0, s.1, s.2, s.3, s.4 ∙ e)

abbrev pub Settles : Stage → Type 0
Settles h = (v : Visit) (w : Response) (st : State) → Settled w st (h v w st)

Settled-if :
    (b : Bool) (w : Response) (st : State) (x y : State → Outcome)
    → Settled w st (x st)
    → Settled w st (y st)
    → Settled w st ((if b then x else y) st)
Settled-if true w st x y h k = h
Settled-if false w st x y h k = k

pub record_route-Settles :
    (pattern : Text) (h : Stage) → Settles h → Settles (record_route pattern h)
unfolding record_route
record_route-Settles pattern h s v w st = s v w (record st { route = pattern })

pub only_reads-Settles : (h : Stage) → Settles h → Settles (only_reads h)
unfolding only_reads
only_reads-Settles h s v w st =
    Settled-if (is_read v.request.method) w st (h v w) (finish (not_allowed v.request w)) (s v w st)
      (not_allowed v.request w, st, refl, refl, ids-not_allowed v.request w)

pub cross_origin-Settles :
    (origins : List Text) (h : Stage) → Settles h → Settles (cross_origin origins h)
unfolding cross_origin
cross_origin-Settles origins h s v w st =
    let w' = negotiate origins v.request.origin w in
    Settled-if
      (text_eq v.request.method (codes "OPTIONS") && not (is_nil v.request.preflight_method)) w st
      (finish (preflight w')) (h v w')
      (preflight w', st, refl, refl, ids-preflight w' ∙ ids-negotiate origins v.request.origin w)
      (Settled-ids w w' st (h v w' st) (ids-negotiate origins v.request.origin w) (s v w' st))

pub timeout-Settles : (d : ℕ) (h : Stage) → Settles h → Settles (timeout d h)
unfolding timeout
timeout-Settles d h s v w st = s _ w st

pub limit-Settles :
    (ar : Arith) (split_host_port : Text → Option Text) (pause : Float64 → ℕ) (h : Stage)
    → Settles h
    → Settles (limit ar split_host_port pause h)
unfolding limit
limit-Settles ar split_host_port pause h s v w st =
    by_answer (allow ar v.admitted (client_of split_host_port v.request) st.limiter)
  where
    by_answer :
        (a : Bool × RateLimiter) → Settled w st (limited_by ar split_host_port pause h v w st a)
    by_answer (true, l) = s v w (record st { limiter = l })
    by_answer (false, l) = (
      throttled ar split_host_port pause (pause l.rate) v w,
      record st { limiter = l },
      refl,
      refl,
      ids-write_api_error code_rate_limited too_many v
            (set_header (codes "Retry-After") (decimal (max (pause l.rate) 1)) w)
          ∙ ids-set_retry (decimal (max (pause l.rate) 1)) w,
    )

-- what each middleware of the list keeps, the chain keeps
pub chain-Settles :
    (h : Stage) (mws : List (Stage → Stage))
    → Settles h
    → All (λ mw. (g : Stage) → Settles g → Settles (mw g)) mws
    → Settles (chain h mws)
unfolding chain
chain-Settles h [] s k = s
chain-Settles h (mw ∷ mws) s (k, ks) = k (chain h mws) (chain-Settles h mws s ks)
