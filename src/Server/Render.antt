-- ===== src/Server/Render.antt =====
-- server/render.go: what a failure is answered with. Bodies are kept as values, before the JSON
-- encoding.
pub mod Codes
pub mod Masked
use tgju_api_go.Common.{
  ℕ, Bool, true, false, Option, none, some, Text, codes, ◌||◌, if◌then◌else◌, is_nil, text_eq, leb,
}
use tgju_api_go.Errors.{
  Kind, unknown_market, not_found, parse, empty, deadline_exceeded, canceled, request,
  unexpected_status, too_large, Err, is, ApiError, as_api,
}

abbrev pub code_not_found : Text
code_not_found = codes "not_found"

abbrev pub code_unknown_market : Text
code_unknown_market = codes "unknown_market"

abbrev pub code_upstream_down : Text
code_upstream_down = codes "upstream_unavailable"

abbrev pub code_upstream_changed : Text
code_upstream_changed = codes "upstream_changed"

abbrev pub code_rate_limited : Text
code_rate_limited = codes "rate_limited"

abbrev pub code_timeout : Text
code_timeout = codes "timeout"

abbrev pub code_internal : Text
code_internal = codes "internal"

unfoldable pub status_for_code : Text → ℕ
unfolding text_eq
status_for_code code =
    if text_eq code code_not_found || text_eq code code_unknown_market
    then 404
    else if text_eq code code_rate_limited
    then 429
    else if text_eq code code_timeout
    then 504
    else if text_eq code code_upstream_down || text_eq code code_upstream_changed
    then 502
    else 500

-- the switch of `classify`
unfoldable pub classify_kind : Err → ℕ × Text
unfolding is
classify_kind e =
    if is unknown_market e
    then (404, code_unknown_market)
    else if is not_found e
    then (404, code_not_found)
    else if is parse e || is empty e
    then (502, code_upstream_changed)
    else if is deadline_exceeded e
    then (504, code_timeout)
    else if is canceled e
    then (408, code_timeout)
    else if is request e || is unexpected_status e || is too_large e
    then (502, code_upstream_down)
    else (500, code_internal)

abbrev pub classify_api : Err → Option ApiError → ℕ × Text
classify_api e none = classify_kind e
classify_api e (some a) = (status_for_code a.code, a.code)

unfoldable pub classify : Err → ℕ × Text
unfolding classify_kind status_for_code as_api
classify e = classify_api e (as_api e)

-- the switch of `message`
unfoldable pub message_for : Text → Text
unfolding text_eq
message_for code =
    if text_eq code code_unknown_market
    then codes "no such market; see GET /v1/markets"
    else if text_eq code code_not_found
    then codes "no such instrument on the requested market"
    else if text_eq code code_upstream_changed
    then codes "tgju.org served a page this service could not parse"
    else if text_eq code code_upstream_down
    then codes "tgju.org could not be reached"
    else if text_eq code code_timeout
    then codes "the request took too long"
    else if text_eq code code_rate_limited
    then codes "too many requests"
    else codes "internal error"

abbrev pub message_api : Text → Option ApiError → Text
message_api code none = message_for code
message_api code (some a) = if is_nil a.message then message_for code else a.message

unfoldable pub message : Err → Text → Text
unfolding message_for as_api
message e code = message_api code (as_api e)

-- the body of a failed response
pub record Failure : Type 0 where
  pub code : Text
  pub message : Text
  pub request_id : Text

-- The status and the body of `writeError`, and whether it is logged as an error.
unfoldable pub write_error : Text → Err → (ℕ × Failure) × Bool
unfolding classify message
write_error request_id e = (
  (
    (classify e).0,
    record { code = (classify e).1; message = message e (classify e).1; request_id = request_id },
  ),
  leb 500 (classify e).0,
)
