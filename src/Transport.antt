-- ===== src/Transport.antt =====
-- transport.go: one request, and the loop that repeats it. What the network and the context do is
-- a parameter (`Exchange`, `World`). Durations are int64 nanoseconds, as bit patterns.
pub mod Request
pub mod Retry
pub mod Backoff
use tgju_api_go.Common.{
  ℕ, zero, suc, ◌+◌, ◌-◌, ◌*◌, ◌%◌, ◌^◌, Bool, true, false, not, List, [], ◌∷◌, ◌++◌, Option, none,
  some, Text, ◌==◌, ltb, leb, max, ◌&&◌, ◌||◌, if◌then◌else◌, length,
}
use tgju_api_go.Market.{Market}
use tgju_api_go.Errors.{
  Kind, request, unexpected_status, too_large, Err, leaf, rich, wrap, cons, nil, wrap_both, is,
  Detail, fetching,
}

abbrev pub Body : Type 0
Body = List ℕ

-- What becomes of one request: it cannot be made, the Doer fails, or there is a response whose
-- body can be read to its end or breaks off.
pub data Exchange : Type 0 where
  malformed unanswered : Err → Exchange
  answered : ℕ → Body → Option Err → Exchange

-- the results of `try`
pub record Attempt : Type 0 where
  pub body : Body
  pub status : ℕ
  pub err : Option Err

abbrev pub take : ℕ → Body → Body
take zero bs = []
take (suc n) [] = []
take (suc n) (b ∷ bs) = b ∷ take n bs

abbrev pub fail : ℕ → Err → Attempt
fail status e = record { body = []; status = status; err = some e }

-- `maxBodySize + 1`, an int64, as far as a LimitReader lets read; a negative number lets nothing
abbrev pub allowance : ℕ → ℕ
allowance limit = if ltb (limit + 1) (2 ^ 63) then limit + 1 else 0

-- the comparison with the limit, which is a positive int64
abbrev pub measured : ℕ → ℕ → Body → Attempt
measured limit status read =
    if ltb limit (length read)
    then fail status (leaf too_large)
    else record { body = read; status = status; err = none }

-- What io.ReadAll of the LimitReader gives: it reads no further than the allowance, and so meets the
-- failure of a broken body only below it.
unfoldable pub read_body : ℕ → ℕ → Body → Option Err → Attempt
read_body limit status body none = measured limit status (take (allowance limit) body)
read_body limit status body (some e) =
    if leb (allowance limit) (length body)
    then measured limit status (take (allowance limit) body)
    else fail status (wrap_both request e)

unfoldable pub try : ℕ → Exchange → Attempt
unfolding read_body
try limit (malformed e) = fail 0 (wrap_both request e)
try limit (unanswered e) = fail 0 (wrap_both request e)
try limit (answered status body broken) =
    if not (status == 200)
    then fail status (leaf unexpected_status)
    else read_body limit status body broken

unfoldable pub retryable : Err → ℕ → Bool
unfolding is
retryable e status =
    if is too_large e
    then false
    else if status == 0
    then true
    else if status == 429 || status == 408
    then true
    else leb 500 status

pub record RetryPolicy : Type 0 where
  pub max_attempts : ℕ
  pub backoff : ℕ
  pub max_backoff : ℕ

abbrev pub default_retry : RetryPolicy
default_retry = record { max_attempts = 3; backoff = 300_000_000; max_backoff = 2_000_000_000 }

-- `a < b` of int64 bit patterns
abbrev pub signed_ltb : ℕ → ℕ → Bool
signed_ltb a b = ltb ((a + 2 ^ 63) % 2 ^ 64) ((b + 2 ^ 63) % 2 ^ 64)

abbrev pub signed_min : ℕ → ℕ → ℕ
signed_min a b = if signed_ltb b a then b else a

-- `backoff *= 2`, capped by MaxBackoff
unfoldable pub next_backoff : RetryPolicy → ℕ → ℕ
next_backoff p backoff =
    let doubled = (backoff * 2) % 2 ^ 64 in
    if signed_ltb 0 p.max_backoff then signed_min doubled p.max_backoff else doubled

-- The environment of one `get`: the exchange of each attempt, and what ctx.Err() is during the
-- pause before it and behind it.
pub record World : Type 0 where
  pub exchange : ℕ → Exchange
  pub pause : ℕ → Option Err
  pub after : ℕ → Option Err

-- the result of `get`, with the pauses that it asked for
pub data Fetched : Type 0 where
  got : Body → List ℕ → Fetched
  lost : Detail → Err → List ℕ → Fetched

-- the variables of the loop
pub record Loop : Type 0 where
  pub attempt : ℕ
  pub backoff : ℕ
  pub last_err : Err
  pub last_status : ℕ
  pub pauses : List ℕ

module _ (policy : RetryPolicy) (limit : ℕ) (m : Market) (url : Text) (w : World) where
  abbrev pub detail : ℕ → ℕ → Detail
  detail status attempts = record {
    op = fetching;
    market = m;
    url = url;
    status_code = status;
    attempts = attempts;
  }

  -- the switch behind `try`, with the next round of the loop in `again`
  unfoldable pub settle : Loop → Attempt → (Loop → Fetched) → Fetched
  unfolding retryable
  settle l t again = elim t.err [
    | none ↦ got t.body l.pauses
    | some e ↦
        if not (retryable e t.status)
        then lost (detail t.status l.attempt) e l.pauses
        else elim (w.after l.attempt) [
          | some done ↦ lost (detail t.status l.attempt) (wrap_both request done) l.pauses
          | none ↦
              again (record l { attempt = l.attempt + 1; last_err = e; last_status = t.status })
        ]
  ]

  -- the pause before an attempt, but the first
  unfoldable pub paused : Loop → (Loop → Fetched) → Fetched
  unfolding next_backoff
  paused l go =
      if ltb 1 l.attempt
      then elim (w.pause l.attempt) [
        | some done ↦
            lost (detail 0 (l.attempt - 1)) (wrap_both request done) (l.pauses ++ l.backoff ∷ [])
        | none ↦ go (record l {
          backoff = next_backoff policy l.backoff;
          pauses = l.pauses ++ l.backoff ∷ [];
        })
      ]
      else go l

  -- the loop, on the rounds that are left
  unfoldable pub get_from : ℕ → ℕ → Loop → Fetched
  unfolding paused settle try
  get_from attempts zero l = lost (detail l.last_status attempts) l.last_err l.pauses
  get_from attempts (suc left) l =
      paused l
        (λ l'. settle l' (try limit (w.exchange l'.attempt)) (λ l2. get_from attempts left l2))

  -- max(MaxAttempts, 1) attempts
  unfoldable pub get : Fetched
  unfolding get_from
  get =
      let attempts = max policy.max_attempts 1 in
      get_from attempts attempts (record {
        attempt = 1;
        backoff = policy.backoff;
        last_err = wrap nil;
        last_status = 0;
        pauses = [];
      })
