-- ===== src/Server/Render/Codes.antt =====
-- The statuses and the codes of server/render.go.
use tgju_api_go.Common.{
  ℕ, ◌≤◌, ◌<◌, Bool, true, false, [], ◌∷◌, Option, none, some, Text, ◌≡◌, ◌≢◌, ◌⊎◌, inl, inr, refl,
  sym, arith, ◌||◌, if◌then◌else◌, is_nil, leb, subst,
}
use tgju_api_go.Errors.{
  unknown_market, not_found, parse, empty, deadline_exceeded, canceled, request, unexpected_status,
  too_large, Err, is, ApiError, as_api,
}
use tgju_api_go.Server.Render.{
  code_not_found, code_unknown_market, code_upstream_down, code_upstream_changed, code_timeout,
  code_internal, status_for_code, classify_kind, classify_api, classify, message, write_error,
  message_for, message_api,
}

-- a pair that the table of codes agrees with, or the answer to a cancelled request
abbrev pub Agrees : ℕ × Text → Type 0
Agrees p = (p.0 ≡ status_for_code p.1) ⊎ (p ≡ (408, code_timeout))

unknown_market_404 : status_for_code code_unknown_market ≡ 404
unfolding status_for_code
unknown_market_404 = refl

not_found_404 : status_for_code code_not_found ≡ 404
unfolding status_for_code
not_found_404 = refl

changed_502 : status_for_code code_upstream_changed ≡ 502
unfolding status_for_code
changed_502 = refl

down_502 : status_for_code code_upstream_down ≡ 502
unfolding status_for_code
down_502 = refl

timeout_504 : status_for_code code_timeout ≡ 504
unfolding status_for_code
timeout_504 = refl

internal_500 : status_for_code code_internal ≡ 500
unfolding status_for_code
internal_500 = refl

pick : (b : Bool) (p q : ℕ × Text) → Agrees p → Agrees q → Agrees (if b then p else q)
pick true p q h k = h
pick false p q h k = k

classify_kind-Agrees : (e : Err) → Agrees (classify_kind e)
unfolding classify_kind
classify_kind-Agrees e = pick (is unknown_market e) _ _ (inl (sym unknown_market_404)) (
    pick (is not_found e) _ _ (inl (sym not_found_404)) (
      pick (is parse e || is empty e) _ _ (inl (sym changed_502)) (
        pick (is deadline_exceeded e) _ _ (inl (sym timeout_504)) (
          pick (is canceled e) _ _ (inr refl) (
            pick (is request e || is unexpected_status e || is too_large e) _ _ (inl (sym down_502))
              (inl (sym internal_500)))))))

pub classify_eq : (e : Err) → classify e ≡ classify_api e (as_api e)
unfolding classify
classify_eq e = refl

classify_api-Agrees : (e : Err) (o : Option ApiError) → Agrees (classify_api e o)
classify_api-Agrees e none = classify_kind-Agrees e
classify_api-Agrees e (some a) = inl refl

-- The status that an error is given is the one that the table of codes has for its code, but for a
-- cancelled request, which is 408 under the code of a timeout.
pub classify-Agrees : (e : Err) → Agrees (classify e)
classify-Agrees e = subst Agrees (sym (classify_eq e)) (classify_api-Agrees e (as_api e))

abbrev pub IsFailure : ℕ → Type 0
IsFailure n = (400 ≤ n) × (n < 600)

status_for_code-IsFailure : (code : Text) → IsFailure (status_for_code code)
unfolding status_for_code
status_for_code-IsFailure code = ground arith

pub Agrees-IsFailure : (p : ℕ × Text) → Agrees p → IsFailure p.0
Agrees-IsFailure p (inl h) = subst IsFailure (sym h) (status_for_code-IsFailure p.1)
Agrees-IsFailure p (inr h) = subst (λ q. IsFailure q.0) (sym h) ((omega arith), (omega arith))

message_for-ne-nil : (code : Text) → message_for code ≢ []
unfolding message_for
message_for-ne-nil code = ground arith

message_api-ne-nil : (code : Text) (o : Option ApiError) → message_api code o ≢ []
message_api-ne-nil code none = message_for-ne-nil code
message_api-ne-nil code (some a) = full a.message code
  where
    full : (t code : Text) → (if is_nil t then message_for code else t) ≢ []
    full [] code = message_for-ne-nil code
    full (c ∷ t) code = λ h. cc

message_eq : (e : Err) (code : Text) → message e code ≡ message_api code (as_api e)
unfolding message
message_eq e code = refl

-- Every error is answered with a failure status and a message, under the request's identifier, and it is
-- logged as an error exactly when the status is that of a server's failure.
pub write_error_lem :
    (id : Text) (e : Err)
    → IsFailure (write_error id e).0.0
      × ((write_error id e).0.1.message ≢ [])
      × ((write_error id e).0.1.request_id ≡ id)
      × ((write_error id e).1 ≡ leb 500 (write_error id e).0.0)
unfolding write_error
write_error_lem id e = (
  Agrees-IsFailure (classify e) (classify-Agrees e),
  subst (λ t. t ≢ []) (sym (message_eq e (classify e).1))
      (message_api-ne-nil (classify e).1 (as_api e)),
  refl,
  refl,
)
