-- ===== src/Server/Stages/Reads.antt =====
-- Reads pass the middlewares of server/middleware.go, or are throttled.
use tgju_api_go.Common.{
  ℕ, ◌+◌, Bool, true, false, List, [], ◌∷◌, Option, none, some, Text, codes, ◌≡◌, ◌⊎◌, inl, inr,
  refl, ap, ◌∙◌, arith, text_eq, text_eq_iff, All,
}
use tgju_api_go.Floats.{Float64}
use tgju_api_go.Errors.{as_api}
use tgju_api_go.Server.Render.{write_error, classify, status_for_code}
use tgju_api_go.Server.Guard.{or_status, Response, chain, is_read, negotiate, client_of}
use tgju_api_go.Server.Limiter.{Arith, RateLimiter, allow}
use tgju_api_go.Server.Stages.{
  State, Visit, answered, Stage, only_reads, cross_origin, limit, limited_by, throttled, timeout,
  earlier,
}
use tgju_api_go.Server.Router.{is_get}

-- the request, as far as a handler reads it
pub record Same (v u : Visit) : Type 0 where
  pub request : u.request ≡ v.request
  pub path : u.path ≡ v.path
  pub query : u.query ≡ v.query
  pub moved : u.moved ≡ v.moved

-- What a stage comes to for a read: what `app` comes to for the same request, with as little sent, or
-- 429 where the limiter is on.
abbrev pub Reaches : Bool → Stage → Stage → Type 0
Reaches on app h =
    (v : Visit) (w : Response) (st : State)
    → is_get v.request.method ≡ true
    → w.status ≡ none
    → ((u : Visit) × (x : Response) × (su : State) × Same v u
        × (x.status ≡ none)
        × (h v w st ≡ app u x su))
      ⊎ ((x : Response) × (su : State) × (h v w st ≡ answered x su)
          × (on ≡ true)
          × (x.status ≡ some 429))

pub get_is_read : (m : Text) → is_get m ≡ true → is_read m ≡ true
unfolding is_read
get_is_read m h = ground arith

pub get_no_options : (m : Text) → is_get m ≡ true → text_eq m (codes "OPTIONS") ≡ false
get_no_options m h = ground (
  arith,
  text_eq_iff m (codes "GET"),
  text_eq_iff m (codes "HEAD"),
  text_eq_iff m (codes "OPTIONS"),
)

pub negotiate_status :
    (origins : List Text) (origin : Text) (w : Response)
    → (negotiate origins origin w).status ≡ w.status
unfolding negotiate
negotiate_status origins origin w = ground arith

throttled_status :
    (ar : Arith) (split_host_port : Text → Option Text) (pause : Float64 → ℕ) (seconds : ℕ)
    (v : Visit) (w : Response)
    → w.status ≡ none
    → (throttled ar split_host_port pause seconds v w).status ≡ some 429
unfolding write_error classify as_api status_for_code
throttled_status ar split_host_port pause seconds v w n = ap (λ o. or_status o 429) n

module _ (on : Bool) (app : Stage) where
  Reaches-self : Reaches on app app
  Reaches-self v w st g n =
      inl (v, w, st, record { request = refl; path = refl; query = refl; moved = refl }, n, refl)

  pub only_reads-Reaches : (h : Stage) → Reaches on app h → Reaches on app (only_reads h)
  unfolding only_reads
  only_reads-Reaches h r v w st g n = rw (get_is_read v.request.method g) (r v w st g n)

  pub cross_origin-Reaches :
      (origins : List Text) (h : Stage) → Reaches on app h → Reaches on app (cross_origin origins h)
  unfolding cross_origin
  cross_origin-Reaches origins h r v w st g n = rw (get_no_options v.request.method g) (
      r v (negotiate origins v.request.origin w) st g
        (negotiate_status origins v.request.origin w ∙ n))

  pub timeout-Reaches : (d : ℕ) (h : Stage) → Reaches on app h → Reaches on app (timeout d h)
  unfolding timeout
  timeout-Reaches d h r v w st g n =
      elim (r (record v { deadline = earlier (v.admitted + d) v.deadline }) w st g n) [
        | inl (u, x, su, same, k, e) ↦ inl (
          u,
          x,
          su,
          record {
            request = same.request;
            path = same.path;
            query = same.query;
            moved = same.moved;
          },
          k,
          e,
        )
        | inr y ↦ inr y
      ]

  pub limit-Reaches :
      (ar : Arith) (split_host_port : Text → Option Text) (pause : Float64 → ℕ) (h : Stage)
      → on ≡ true
      → Reaches on app h
      → Reaches on app (limit ar split_host_port pause h)
  unfolding limit
  limit-Reaches ar split_host_port pause h o r v w st g n =
      by_answer (allow ar v.admitted (client_of split_host_port v.request) st.limiter)
    where
      by_answer :
          (a : Bool × RateLimiter)
          → ((u : Visit) × (x : Response) × (su : State) × Same v u
              × (x.status ≡ none)
              × (limited_by ar split_host_port pause h v w st a ≡ app u x su))
            ⊎ ((x : Response) × (su : State) × (limited_by ar split_host_port pause h v w st a
                  ≡ answered x su)
                × (on ≡ true)
                × (x.status ≡ some 429))
      by_answer (true, l) = r v w (record st { limiter = l }) g n
      by_answer (false, l) = inr (
        throttled ar split_host_port pause (pause l.rate) v w,
        record st { limiter = l },
        refl,
        o,
        throttled_status ar split_host_port pause (pause l.rate) v w n,
      )

  abbrev pub Layered : (Stage → Stage) → Type 0
  Layered mw = (h : Stage) → Reaches on app h → Reaches on app (mw h)

  pub chain-Reaches :
      (mws : List (Stage → Stage)) → All Layered mws → Reaches on app (chain app mws)
  unfolding chain
  chain-Reaches [] k = Reaches-self
  chain-Reaches (mw ∷ mws) (k, ks) = k (chain app mws) (chain-Reaches mws ks)
