-- ===== src/Transport/Retry.antt =====
-- The retry loop of transport.go.
use tgju_api_go.Common.{
  ℕ, zero, suc, ◌+◌, ◌<◌, max, true, false, List, [], ◌∷◌, ◌++◌, none, some, Text, ◌≡◌, refl, sym,
  ap, ◌∙◌, arith, ltb, Bool-cases, inl, inr, subst,
}
use tgju_api_go.Market.{Market}
use tgju_api_go.Errors.{Err, wrap, nil}
use tgju_api_go.Transport.{
  Attempt, try, retryable, RetryPolicy, World, Fetched, got, lost, Loop, settle, next_backoff,
  paused, get_from, get, detail,
}

-- the context never ends
pub record IsQuiet (w : World) : Type 0 where
  pub pause : (k : ℕ) → w.pause k ≡ none
  pub after : (k : ℕ) → w.after k ≡ none

-- an attempt that fails in a way that another may not
abbrev pub Retries : Attempt → Type 0
Retries t = (e : Err) × (t.err ≡ some e) × (retryable e t.status ≡ true)

module _ (policy : RetryPolicy) (limit : ℕ) (m : Market) (url : Text) (w : World) where
  abbrev attempt_at : ℕ → Attempt
  attempt_at k = try limit (w.exchange k)

  paused_quiet :
      (q : IsQuiet w) (l : Loop) (go : Loop → Fetched)
      → (l' : Loop) × (paused policy limit m url w l go ≡ go l') × (l'.attempt ≡ l.attempt)
  unfolding paused
  paused_quiet q l go = elim (Bool-cases (ltb 1 l.attempt)) [
    | inl e ↦ (
      record l { backoff = next_backoff policy l.backoff; pauses = l.pauses ++ l.backoff ∷ [] },
      rw e (rw (q.pause l.attempt)),
      refl,
    )
    | inr e ↦ (l, rw e, refl)
  ]

  settle-Retries :
      (q : IsQuiet w) (l : Loop) (t : Attempt) (again : Loop → Fetched)
      → Retries t
      → (l' : Loop) × (settle policy limit m url w l t again ≡ again l')
        × (l'.attempt ≡ l.attempt + 1)
        × (t.err ≡ some l'.last_err)
        × (t.status ≡ l'.last_status)
  unfolding settle
  settle-Retries q l t again (e, failed, retry) = (
    record l { attempt = l.attempt + 1; last_err = e; last_status = t.status },
    rw (failed, settle) (rw retry (rw (q.after l.attempt))),
    refl,
    failed,
    refl,
  )

  settle_ok :
      (l : Loop) (t : Attempt) (again : Loop → Fetched)
      → t.err ≡ none
      → settle policy limit m url w l t again ≡ got t.body l.pauses
  unfolding settle
  settle_ok l t again h = rw (h, settle)

  settle_stops :
      (l : Loop) (t : Attempt) (again : Loop → Fetched) (e : Err)
      → t.err ≡ some e
      → retryable e t.status ≡ false
      → settle policy limit m url w l t again
        ≡ lost (detail policy limit m url w t.status l.attempt) e l.pauses
  unfolding settle
  settle_stops l t again e h r = rw (h, settle) (rw r)

  -- one round, with the pause behind it
  unfoldable pub round : ℕ → ℕ → Loop → Fetched
  round attempts left l' =
      settle policy limit m url w l' (attempt_at l'.attempt)
        (λ l2. get_from policy limit m url w attempts left l2)

  pub get_from-suc :
      (attempts left : ℕ) (l : Loop)
      → get_from policy limit m url w attempts (suc left) l
        ≡ paused policy limit m url w l (round attempts left)
  unfolding get_from round
  get_from-suc attempts left l = refl

  get_step :
      (q : IsQuiet w) (attempts left : ℕ) (l : Loop)
      → (l' : Loop) × (get_from policy limit m url w attempts (suc left) l
          ≡ settle policy limit m url w l'
              (attempt_at l.attempt)
              (λ l2. get_from policy limit m url w attempts left l2))
        × (l'.attempt ≡ l.attempt)
  unfolding round
  get_step q attempts left l =
      let (l', e, same) = paused_quiet q l (round attempts left) in
      (
        l',
        get_from-suc attempts left l
            ∙ e
            ∙ ap
                (λ k.
                  settle policy limit m url w l' (attempt_at k)
                    (λ l2. get_from policy limit m url w attempts left l2))
                same,
        same,
      )

  -- What an attempt that is not repeated makes of the whole call.
  abbrev pub Decides : ℕ → Fetched → Type 0
  Decides k r =
      ((attempt_at k).err ≡ none → (ps : List ℕ) × (r ≡ got (attempt_at k).body ps))
      × ((e : Err)
          → (attempt_at k).err ≡ some e
          → retryable e (attempt_at k).status ≡ false
          → (ps : List ℕ) × (r ≡ lost (detail policy limit m url w (attempt_at k).status k) e ps))

  abbrev pub RetriesFrom : ℕ → ℕ → Type 0
  RetriesFrom first n = (i : ℕ) → i < n → Retries (attempt_at (first + i))

  later : (first next n : ℕ) → next ≡ first + 1 → RetriesFrom first (suc n) → RetriesFrom next n
  later first next n e h i lt =
      subst (λ k. Retries (attempt_at k)) (omega arith) (h (suc i) (omega arith))

  shift : (first next n k : ℕ) → next ≡ first + 1 → k ≡ first + suc n → k ≡ next + n
  shift first next n k e f = omega arith

  first-Retries : (first n : ℕ) → RetriesFrom first (suc n) → Retries (attempt_at first)
  first-Retries first n h = subst (λ k. Retries (attempt_at k)) (omega arith) (h 0 (omega arith))

  Decides-now :
      (k : ℕ) (l : Loop) (again : Loop → Fetched)
      → l.attempt ≡ k
      → Decides k (settle policy limit m url w l (attempt_at k) again)
  Decides-now k l again e = (
    λ ok. (l.pauses, settle_ok l (attempt_at k) again ok),
    λ x failed stop. (
      l.pauses,
      settle_stops l (attempt_at k) again x failed stop
          ∙ ap (λ j. lost (detail policy limit m url w (attempt_at k).status j) x l.pauses) e,
    ),
  )

  Decides-from :
      (q : IsQuiet w) (attempts left n k : ℕ) (l : Loop)
      → n < left
      → k ≡ l.attempt + n
      → RetriesFrom l.attempt n
      → Decides k (get_from policy limit m url w attempts left l)
  Decides-from q attempts zero n k l lt e h = elim lt [ ]
  Decides-from q attempts (suc left) zero k l lt e h =
      let (l', step, same) = get_step q attempts left l in
      let here : l.attempt ≡ k = omega arith in
      subst (λ j. Decides j (get_from policy limit m url w attempts (suc left) l)) here
        (subst (Decides l.attempt) (sym step)
          (Decides-now l.attempt l' (λ l2. get_from policy limit m url w attempts left l2) same))
  Decides-from q attempts (suc left) (suc n) k l lt e h =
      let (l', step, same) = get_step q attempts left l in
      let (l2, again, next, _, _) =
        settle-Retries q l' (attempt_at l.attempt)
          (λ l3. get_from policy limit m url w attempts left l3) (first-Retries l.attempt n h) in
      subst (Decides k) (sym (step ∙ again)) (
        Decides-from q attempts left n k l2 (omega arith)
          (shift l.attempt l2.attempt n k (next ∙ ap (λ j. j + 1) same) e)
          (later l.attempt l2.attempt n (next ∙ ap (λ j. j + 1) same) h))

  pub get_eq :
      get policy limit m url w
      ≡ get_from policy limit m url w
          (max policy.max_attempts 1)
          (max policy.max_attempts 1)
          (record {
            attempt = 1;
            backoff = policy.backoff;
            last_err = wrap nil;
            last_status = 0;
            pauses = [];
          })
  unfolding get
  get_eq = refl

  -- While the context lasts, the first attempt that succeeds or fails for good decides the call:
  -- its body is returned, or its error with its status and its number.
  pub get-Decides :
      (q : IsQuiet w) (n : ℕ)
      → n < max policy.max_attempts 1
      → RetriesFrom 1 n
      → Decides (n + 1) (get policy limit m url w)
  get-Decides q n lt h = subst (Decides (n + 1)) (sym get_eq) (
      Decides-from q (max policy.max_attempts 1) (max policy.max_attempts 1) n (n + 1) _ lt
        (omega arith) h)

  count :
      (first next left n : ℕ) → next ≡ first + 1 → first + suc left ≡ n + 1 → next + left ≡ n + 1
  count first next left n e f = omega arith

  last : (first left n : ℕ) → first + suc left ≡ n + 1 → left ≡ 0 → first ≡ n
  last first left n e f = omega arith

  get_from_zero :
      (attempts : ℕ) (l : Loop)
      → get_from policy limit m url w attempts zero l
        ≡ lost (detail policy limit m url w l.last_status attempts) l.last_err l.pauses
  unfolding get_from
  get_from_zero attempts l = refl

  -- the loop's memory of the attempt before
  abbrev Remembers : ℕ → Loop → Type 0
  Remembers k l = ((attempt_at k).err ≡ some l.last_err) × ((attempt_at k).status ≡ l.last_status)

  -- the last attempt's error, with its status and the number of attempts
  abbrev pub GivesUp : ℕ → Fetched → Type 0
  GivesUp k r =
      (e : Err) × (ps : List ℕ) × (r
        ≡ lost (detail policy limit m url w (attempt_at k).status k) e ps)
      × ((attempt_at k).err ≡ some e)

  exhausts :
      (q : IsQuiet w) (attempts left : ℕ) (l : Loop)
      → l.attempt + left ≡ attempts + 1
      → RetriesFrom l.attempt left
      → (left ≡ 0 → Remembers attempts l)
      → GivesUp attempts (get_from policy limit m url w attempts left l)
  exhausts q attempts zero l e h mem =
      let (err, status) = mem refl in
      (
        l.last_err,
        l.pauses,
        get_from_zero attempts l
            ∙ ap (λ s. lost (detail policy limit m url w s attempts) l.last_err l.pauses)
                (sym status),
        err,
      )
  exhausts q attempts (suc left) l e h mem =
      let (l', step, same) = get_step q attempts left l in
      let (l2, again, next, err, status) =
        settle-Retries q l' (attempt_at l.attempt)
          (λ l3. get_from policy limit m url w attempts left l3) (first-Retries l.attempt left h) in
      let next' = next ∙ ap (λ j. j + 1) same in
      subst (GivesUp attempts) (sym (step ∙ again)) (
        exhausts q attempts left l2 (count l.attempt l2.attempt left attempts next' e)
          (later l.attempt l2.attempt left next' h)
          (λ done. subst (λ k. Remembers k l2) (last l.attempt left attempts e done) (err, status)))

  -- While the context lasts, if every attempt fails in a way that another may not, all of them are
  -- made, and the error is that of the last.
  pub get_exhausts :
      (q : IsQuiet w)
      → RetriesFrom 1 (max policy.max_attempts 1)
      → GivesUp (max policy.max_attempts 1) (get policy limit m url w)
  get_exhausts q h = subst (GivesUp (max policy.max_attempts 1)) (sym get_eq) (
      exhausts q (max policy.max_attempts 1) (max policy.max_attempts 1) _ (omega arith) h
        (λ none_left. absurd (omega arith)))
