-- ===== src/Transport/Backoff.antt =====
-- The pauses between the attempts of transport.go.
use tgju_api_go.Common.{
  ℕ, zero, suc, ◌+◌, ◌-◌, ◌^◌, ◌≤◌, ◌<◌, max, true, List, [], ◌∷◌, ◌++◌, none, some, Text, ◌≡◌,
  refl, sym, ap, ◌∙◌, arith, ltb, Bool-cases, Option-cases, inl, inr, subst, subst₂, All,
  All-append, head?, head?-append_some,
}
use tgju_api_go.Market.{Market}
use tgju_api_go.Errors.{Err, Detail, wrap, nil}
use tgju_api_go.Transport.Retry.{round, get_from-suc, get_eq}
use tgju_api_go.Transport.{
  Attempt, try, retryable, RetryPolicy, World, Fetched, got, lost, Loop, next_backoff, settle,
  paused, get_from, get,
}

abbrev pub pauses_of : Fetched → List ℕ
pauses_of (got b ps) = ps
pauses_of (lost d e ps) = ps

next_backoff_le :
    (p : RetryPolicy) (b most : ℕ)
    → b ≤ most
    → p.max_backoff ≤ most
    → 0 < p.max_backoff
    → most < 2 ^ 62
    → next_backoff p b ≤ most
unfolding next_backoff
next_backoff_le p b most h k pos fits = ground arith

module _ {ℓ} (P : Fetched → Type ℓ) (policy : RetryPolicy) (limit : ℕ) (m : Market) (url : Text)
    (w : World) where
  settle_post :
      (l : Loop) (t : Attempt) (again : Loop → Fetched)
      → ((b : List ℕ) → P (got b l.pauses))
      → ((d : Detail) (e : Err) → P (lost d e l.pauses))
      → ((l' : Loop) → l'.backoff ≡ l.backoff → l'.pauses ≡ l.pauses → P (again l'))
      → P (settle policy limit m url w l t again)
  unfolding settle
  settle_post l t again ok bad next = elim (Option-cases t.err) [
    | inl e ↦ rw (e, settle) (ok t.body)
    | inr (x, e) ↦
        rw (e, settle)
          (elim (Bool-cases (retryable x t.status)) [
            | inr stop ↦ rw stop (bad _ x)
            | inl more ↦ rw more (elim (Option-cases (w.after l.attempt)) [
              | inl on ↦ rw on (next _ refl refl)
              | inr (d, over) ↦ rw over (bad _ _)
            ])
          ])
  ]

  paused_later :
      (l : Loop) (go : Loop → Fetched)
      → ltb 1 l.attempt ≡ true
      → ((d : Detail) (e : Err) → P (lost d e (l.pauses ++ l.backoff ∷ [])))
      → ((l' : Loop)
          → l'.backoff ≡ next_backoff policy l.backoff
          → l'.pauses ≡ l.pauses ++ l.backoff ∷ []
          → P (go l'))
      → P (paused policy limit m url w l go)
  unfolding paused
  paused_later l go e bad next = rw e (elim (Option-cases (w.pause l.attempt)) [
    | inl on ↦ rw on (next _ refl refl)
    | inr (d, over) ↦ rw over (bad _ _)
  ])

  paused_post :
      (l : Loop) (go : Loop → Fetched)
      → ((d : Detail) (e : Err) → P (lost d e (l.pauses ++ l.backoff ∷ [])))
      → ((l' : Loop)
          → l'.backoff ≡ next_backoff policy l.backoff
          → l'.pauses ≡ l.pauses ++ l.backoff ∷ []
          → P (go l'))
      → P (go l)
      → P (paused policy limit m url w l go)
  unfolding paused
  paused_post l go bad next first = elim (Bool-cases (ltb 1 l.attempt)) [
    | inr e ↦ rw e first
    | inl e ↦ paused_later l go e bad next
  ]

  round_post :
      (Inv : ℕ → List ℕ → Type ℓ)
      → ((b : List ℕ) (ps : List ℕ) (d : ℕ) → Inv d ps → P (got b ps))
      → ((x : Detail) (e : Err) (ps : List ℕ) (d : ℕ) → Inv d ps → P (lost x e ps))
      → (attempts left : ℕ)
      → ((l : Loop) → Inv l.backoff l.pauses → P (get_from policy limit m url w attempts left l))
      → (l : Loop) → Inv l.backoff l.pauses
      → P (round policy limit m url w attempts left l)
  unfolding round
  round_post Inv ok bad attempts left rest l h =
      settle_post l (try limit (w.exchange l.attempt)) _ (λ b. ok b l.pauses l.backoff h)
        (λ d e. bad d e l.pauses l.backoff h) (λ l2 b ps. rest l2 (subst₂ Inv (sym b) (sym ps) h))

  -- A property of the loop's variables that each pause keeps holds of the pauses in the end.
  get_from_post :
      (Inv : ℕ → List ℕ → Type ℓ)
      → ((b : List ℕ) (ps : List ℕ) (d : ℕ) → Inv d ps → P (got b ps))
      → ((x : Detail) (e : Err) (ps : List ℕ) (d : ℕ) → Inv d ps → P (lost x e ps))
      → ((d : ℕ) (ps : List ℕ) → Inv d ps → Inv (next_backoff policy d) (ps ++ d ∷ []))
      → (attempts left : ℕ) (l : Loop) → Inv l.backoff l.pauses
      → P (get_from policy limit m url w attempts left l)
  get_from_post Inv ok bad keep attempts zero l h = unfold get_from in bad _ _ l.pauses l.backoff h
  get_from_post Inv ok bad keep attempts (suc left) l h =
      let after =
        round_post Inv ok bad attempts left (get_from_post Inv ok bad keep attempts left) in
      subst P (sym (get_from-suc policy limit m url w attempts left l)) (
        paused_post l (round policy limit m url w attempts left)
          (λ d e.
            bad d e (l.pauses ++ l.backoff ∷ []) (next_backoff policy l.backoff)
              (keep l.backoff l.pauses h))
          (λ l' b ps. after l' (subst₂ Inv (sym b) (sym ps) (keep l.backoff l.pauses h)))
          (after l h))

module _ (policy : RetryPolicy) (limit : ℕ) (m : Market) (url : Text) (w : World) where
  -- No pause is longer than the longer of Backoff and MaxBackoff, when there is a cap and neither
  -- is so long that doubling wraps around.
  pub pauses_bounded :
      (most : ℕ)
      → policy.backoff ≤ most
      → policy.max_backoff ≤ most
      → 0 < policy.max_backoff
      → most < 2 ^ 62
      → All (λ d. d ≤ most) (pauses_of (get policy limit m url w))
  pauses_bounded most h k pos fits =
      subst (λ r. All (λ d. d ≤ most) (pauses_of r)) (sym (get_eq policy limit m url w))
        (get_from_post (λ r. All (λ d. d ≤ most) (pauses_of r)) policy limit m url w
          (λ d ps. (d ≤ most) × All (λ x. x ≤ most) ps) (λ b ps d i. i.1) (λ x e ps d i. i.1)
          (λ d ps i.
            (next_backoff_le policy d most i.0 k pos fits, All-append _ ps (d ∷ []) i.1 (i.0, tt)))
          (max policy.max_attempts 1) (max policy.max_attempts 1) _ (h, tt))

  abbrev StartsWith : ℕ → List ℕ → Type 0
  StartsWith d ps = head? ps ≡ some policy.backoff

  get_from_second :
      (attempts left : ℕ) (l : Loop)
      → l.attempt ≡ 2
      → l.backoff ≡ policy.backoff
      → l.pauses ≡ []
      → head? (pauses_of (get_from policy limit m url w attempts (suc left) l))
        ≡ some policy.backoff
  get_from_second attempts left l a b ps =
      let head_is : head? (l.pauses ++ l.backoff ∷ []) ≡ some policy.backoff = rw ps (ap some b) in
      let P = λ (r : Fetched). head? (pauses_of r) ≡ some policy.backoff in
      let go =
        round_post P policy limit m url w StartsWith (λ _ qs d i. i) (λ _ _ qs d i. i) attempts left
          (get_from_post P policy limit m url w StartsWith (λ _ qs d i. i) (λ _ _ qs d i. i)
            (λ d qs i. head?-append_some qs (d ∷ []) i) attempts left) in
      subst P (sym (get_from-suc policy limit m url w attempts left l)) (
        paused_later P policy limit m url w l (round policy limit m url w attempts left) (rw a refl)
          (λ d e. head_is) (λ l' _ qs. go l' (rw qs head_is)))

  abbrev first_loop : Loop
  first_loop = record {
    attempt = 1;
    backoff = policy.backoff;
    last_err = wrap nil;
    last_status = 0;
    pauses = [];
  }

  abbrev second_loop : Err → ℕ → Loop
  second_loop e status = record {
    attempt = 1 + 1;
    backoff = policy.backoff;
    last_err = e;
    last_status = status;
    pauses = [];
  }

  first_round :
      (e : Err) (attempts left : ℕ)
      → (try limit (w.exchange 1)).err ≡ some e
      → retryable e (try limit (w.exchange 1)).status ≡ true
      → w.after 1 ≡ none
      → paused policy limit m url w first_loop (round policy limit m url w attempts left)
        ≡ get_from policy limit m url w attempts left
            (second_loop e (try limit (w.exchange 1)).status)
  unfolding paused round settle
  first_round e attempts left failed retry on = rw (failed, settle) (rw retry (rw on))

  begin_again :
      (e : Err) (attempts left : ℕ)
      → (try limit (w.exchange 1)).err ≡ some e
      → retryable e (try limit (w.exchange 1)).status ≡ true
      → w.after 1 ≡ none
      → head? (pauses_of (get_from policy limit m url w attempts (suc (suc left)) (first_loop)))
        ≡ some policy.backoff
  begin_again e attempts left failed retry on =
      subst (λ r. head? (pauses_of r) ≡ some policy.backoff)
        (sym (
          get_from-suc policy limit m url w attempts (suc left) first_loop
          ∙ first_round e attempts (suc left) failed retry on))
        (get_from_second attempts left (second_loop e (try limit (w.exchange 1)).status) refl refl
          refl)

  -- When the first attempt fails in a way that another may not, the context lasts behind it and
  -- there is a second one, the pause before that is Backoff, also where MaxBackoff is shorter.
  pub first_pause :
      (e : Err)
      → 2 ≤ policy.max_attempts
      → (try limit (w.exchange 1)).err ≡ some e
      → retryable e (try limit (w.exchange 1)).status ≡ true
      → w.after 1 ≡ none
      → head? (pauses_of (get policy limit m url w)) ≡ some policy.backoff
  first_pause e h failed retry on =
      let more : max policy.max_attempts 1 ≡ suc (suc (policy.max_attempts - 2)) = omega arith in
      subst (λ r. head? (pauses_of r) ≡ some policy.backoff) (sym (get_eq policy limit m url w))
        (rw more (
          begin_again e (suc (suc (policy.max_attempts - 2))) (policy.max_attempts - 2) failed retry
            on))
