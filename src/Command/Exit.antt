-- ===== src/Command/Exit.antt =====
-- The exit code of `tgju item`, cmd/tgju/main.go and commands.go.
use tgju_api_go.Common.{true, List, [], Option, none, some, Text, ◌≡◌, ◌≢◌, ap, ◌∙◌, arith}
use tgju_api_go.Market.{Market}
use tgju_api_go.Errors.{canceled, Err, Result, ok, err, is}
use tgju_api_go.Client.{Round, asked, fetch_all, item}
use tgju_api_go.Client.Together.{fetch_all-err}
use tgju_api_go.Client.Lookup.{searched, item_lem}
use tgju_api_go.Server.Render.Masked.{found_in}
use tgju_api_go.Command.{exit_ok, exit_code}

abbrev pub err_of {ℓ} : {A : Type ℓ} → Result A → Option Err
err_of (ok a) = none
err_of (err e) = some e

exit_canceled : (e : Err) → is canceled e ≡ true → exit_code (some e) ≡ exit_ok
unfolding exit_code
exit_canceled e h = ground arith

-- When one fetch of `tgju item` with a key ends by cancellation, as the others do once one of them
-- has failed, the command exits with the code of success.
pub exit_code-item :
    (r : Round) (key : Text) (ms : List Market) (e : Err)
    → key ≢ []
    → fetch_all r (asked ms) ≡ err e
    → found_in r (asked ms) canceled ≡ true
    → exit_code (err_of (item r key ms)) ≡ exit_ok
exit_code-item r key ms e k h c =
    ap (λ i. exit_code (err_of i)) (item_lem r key ms k)
    ∙ ap (λ f. exit_code (err_of (searched key (asked ms) f))) h
    ∙ exit_canceled e (fetch_all-err r (asked ms) e canceled h ∙ c)
