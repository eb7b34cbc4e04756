-- ===== src/Server/Guard/Headers.antt =====
-- The values that a response has for one header of server/middleware.go.
use tgju_api_go.Common.{
  not, List, [], ◌∷◌, ◌++◌, Text, keep, ◌≡◌, inl, inr, refl, ap, ◌∙◌, arith, false, true,
  if◌then◌else◌, text_eq, text_eq_refl, text_eq_iff, append-nil, Bool-cases,
}
use tgju_api_go.Server.Guard.{Response, set_header, add_header}

module _ (key : Text) where
  abbrev pub values_of : List (Text × Text) → List Text
  values_of [] = []
  values_of ((k, v) ∷ hs) = if text_eq k key then v ∷ values_of hs else values_of hs

  values_of-append :
      (hs ks : List (Text × Text)) → values_of (hs ++ ks) ≡ values_of hs ++ values_of ks
  values_of-append [] ks = refl
  values_of-append ((k, v) ∷ hs) ks = ground (arith, values_of-append hs ks)

  values_of-keep : (hs : List (Text × Text)) → values_of (keep (λ p. not (text_eq p.0 key)) hs) ≡ []
  values_of-keep [] = refl
  values_of-keep ((k, v) ∷ hs) = elim (Bool-cases (text_eq k key)) [
    | inl e ↦ rw e (values_of-keep hs)
    | inr e ↦ rw e (rw e (values_of-keep hs))
  ]

  -- a header that is set has the one value
  pub values_of-set : (v : Text) (w : Response) → values_of (set_header key v w).headers ≡ v ∷ []
  values_of-set v w =
      values_of-append (keep (λ p. not (text_eq p.0 key)) w.headers) ((key, v) ∷ [])
      ∙ ap (λ t. t ++ values_of ((key, v) ∷ [])) (values_of-keep w.headers)
      ∙ (rw (text_eq_refl key))

  -- a header of another name
  module _ (name : Text) (apart : text_eq name key ≡ false) where
    named_apart : (k : Text) → text_eq k name ≡ true → text_eq k key ≡ false
    named_apart k h = rw ((text_eq_iff k name).0 h) apart

    values_of-other :
        (hs : List (Text × Text)) → values_of (keep (λ p. not (text_eq p.0 name)) hs) ≡ values_of hs
    values_of-other [] = refl
    values_of-other ((k, v) ∷ hs) = elim (Bool-cases (text_eq k name)) [
      | inl e ↦ rw e (rw (named_apart k e) (values_of-other hs))
      | inr e ↦ rw e (ap (λ t. if text_eq k key then v ∷ t else t) (values_of-other hs))
    ]

    pub values_of-add_other :
        (v : Text) (w : Response) → values_of (add_header name v w).headers ≡ values_of w.headers
    values_of-add_other v w =
        values_of-append w.headers ((name, v) ∷ [])
        ∙ ap (λ b. values_of w.headers ++ (if b then v ∷ [] else [])) apart
        ∙ append-nil (values_of w.headers)

    pub values_of-set_other :
        (v : Text) (w : Response) → values_of (set_header name v w).headers ≡ values_of w.headers
    values_of-set_other v w =
        values_of-add_other v (record w { headers = keep (λ p. not (text_eq p.0 name)) w.headers })
        ∙ values_of-other w.headers
