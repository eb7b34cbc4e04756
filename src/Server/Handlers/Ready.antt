-- ===== src/Server/Handlers/Ready.antt =====
-- The readiness probe of server/handlers.go.
use tgju_api_go.Common.{
  ℕ, max, Text, ◌≡◌, ◌⊎◌, inl, inr, refl, sym, ap, subst, arith, ◌||◌, text_eq, text_eq_iff,
  Bool-cases,
}
use tgju_api_go.Market.{currency}
use tgju_api_go.Errors.{Result, ok, err}
use tgju_api_go.Snapshot.{Snapshot}
use tgju_api_go.Server.Render.{
  classify, status_for_code, code_not_found, code_unknown_market, code_rate_limited, code_timeout,
  code_upstream_down, code_upstream_changed,
}
use tgju_api_go.Server.Render.Codes.{Agrees, classify-Agrees}
use tgju_api_go.Server.Handlers.{Service, Answer, unready, ready_by, handle_ready}

-- the probe's answer, by what the fetch of the currency board gives
abbrev pub Probes : Result Snapshot → Answer → Type 0
Probes (ok snap) a = a.status ≡ 200
Probes (err e) a =
    ((a.status ≡ 503) ⊎ ((a.status ≡ 504) × ((classify e).1 ≡ code_timeout)))
    × (a.body ≡ unready (classify e).1)

-- a status below 503 is raised to it, and only a timeout's is higher
Raised : ℕ → Text → Type 0
Raised n code = (max n 503 ≡ 503) ⊎ ((max n 503 ≡ 504) × (code ≡ code_timeout))

status_for_code-Raised : (code : Text) → Raised (status_for_code code) code
unfolding status_for_code Raised
status_for_code-Raised code =
    elim (Bool-cases (text_eq code code_not_found || text_eq code code_unknown_market)) [
      | inl e ↦ rw e (inl refl)
      | inr e ↦ elim (Bool-cases (text_eq code code_rate_limited)) [
        | inl f ↦ rw (e, f) (inl refl)
        | inr f ↦ elim (Bool-cases (text_eq code code_timeout)) [
          | inl g ↦ rw (e, f, g) (inr (refl, (text_eq_iff code code_timeout).0 g))
          | inr g ↦
              elim (Bool-cases
                (text_eq code code_upstream_down || text_eq code code_upstream_changed)) [
                  | inl h ↦ rw (e, f, g, h) (inl refl)
                  | inr h ↦ rw (e, f, g, h) (inl refl)
                ]
        ]
      ]
    ]

Agrees-Raised : (p : ℕ × Text) → Agrees p → Raised p.0 p.1
unfolding Raised
Agrees-Raised (n, code) (inl e) = subst (λ k. Raised k code) (sym e) (status_for_code-Raised code)
Agrees-Raised (n, code) (inr e) = inl (omega (arith, ap (λ (p : ℕ × Text). p.0) e))

module _ (s : Service) where
  ready_by-Probes : (r : Result Snapshot) → Probes r (ready_by s r)
  ready_by-Probes (ok snap) = refl
  ready_by-Probes (err e) = (unfold Raised in Agrees-Raised (classify e) (classify-Agrees e), refl)

  -- The service is ready exactly when the currency board can be fetched. Otherwise the probe names the
  -- code of the failure, and answers with 503, or with 504, which it does only for a timeout's code.
  pub handle_ready-Probes : Probes (s.fetch currency) (handle_ready s)
  unfolding handle_ready
  handle_ready-Probes = ready_by-Probes (s.fetch currency)
