-- ===== src/Server/Render/Masked.antt =====
-- How server/render.go answers a failed FetchAll of client.go.
use tgju_api_go.Common.{Bool, true, false, List, none, ◌≡◌, refl, ap, ◌∙◌, any, map}
use tgju_api_go.Market.{Market}
use tgju_api_go.Errors.{
  Kind, unknown_market, not_found, parse, empty, deadline_exceeded, canceled, Err, err, is, as_api,
}
use tgju_api_go.Errors.Find.{holds}
use tgju_api_go.Client.{Round, launched, error_of, asked, fetch_all}
use tgju_api_go.Client.Together.{fetch_all-err}
use tgju_api_go.Server.Render.{classify, classify_api, classify_kind, code_timeout}
use tgju_api_go.Server.Render.Codes.{classify_eq}

-- whether errors.Is finds the sentinel in the error of a goroutine of the call
abbrev pub found_in : Round → List Market → Kind → Bool
found_in r ms k = any (holds k) (map error_of (launched r.outcome 0 (asked ms)))

-- no error of the call has a sentinel that `classify` asks for before that of cancellation
pub record OnlyRequests (r : Round) (ms : List Market) : Type 0 where
  pub unknown_market : found_in r ms unknown_market ≡ false
  pub not_found : found_in r ms not_found ≡ false
  pub parse : found_in r ms parse ≡ false
  pub empty : found_in r ms empty ≡ false
  pub deadline_exceeded : found_in r ms deadline_exceeded ≡ false

classify_kind_canceled :
    (e : Err)
    → is unknown_market e ≡ false
    → is not_found e ≡ false
    → is parse e ≡ false
    → is empty e ≡ false
    → is deadline_exceeded e ≡ false
    → is canceled e ≡ true
    → classify_kind e ≡ (408, code_timeout)
unfolding classify_kind
classify_kind_canceled e a b c d f g = rw a (rw b (rw c (rw d (rw f (rw g refl)))))

-- When one fetch of a FetchAll ends by cancellation, as the others do once one of them has failed,
-- and no error of it is an APIError, a deadline's or one of an unknown market, a missing
-- instrument or a page, the failed request is answered with 408 and the code of a timeout.
pub classify-fetch_all :
    (r : Round) (ms : List Market) (e : Err)
    → fetch_all r ms ≡ err e
    → as_api e ≡ none
    → OnlyRequests r ms
    → found_in r ms canceled ≡ true
    → classify e ≡ (408, code_timeout)
classify-fetch_all r ms e h plain only c =
    classify_eq e
    ∙ ap (classify_api e) plain
    ∙ classify_kind_canceled e (fetch_all-err r ms e unknown_market h ∙ only.unknown_market)
        (fetch_all-err r ms e not_found h ∙ only.not_found)
        (fetch_all-err r ms e parse h ∙ only.parse) (fetch_all-err r ms e empty h ∙ only.empty)
        (fetch_all-err r ms e deadline_exceeded h ∙ only.deadline_exceeded)
        (fetch_all-err r ms e canceled h ∙ c)
