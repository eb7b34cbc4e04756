-- ===== src/Server/Pages.antt =====
-- The handlers of server/handlers.go, server/docs.go and server/metrics.go as they write on a response,
-- with writeJSON and notFound of server/render.go. Of the bodies of the pages /openapi.yaml, /docs and
-- /metrics nothing is kept; the text of the last one is in Server/Metrics/Page.antt.
use tgju_api_go.Common.{◌++◌, Option, none, some, Text, codes}
use tgju_api_go.Strings.{decimal}
use tgju_api_go.Server.Render.{Failure, code_not_found, write_error}
use tgju_api_go.Server.Guard.{Response, set_header, write_header}
use tgju_api_go.Server.Handlers.{CacheControl, unset, no_store, public_for, Body, failure, Answer}
use tgju_api_go.Server.Stages.{Stage, answered, write_api_error}

abbrev pub set_cache : CacheControl → Response → Response
set_cache unset w = w
set_cache no_store w = set_header (codes "Cache-Control") (codes "no-store") w
set_cache (public_for n) w =
    set_header (codes "Cache-Control") (codes "public, max-age=" ++ decimal n) w

abbrev pub failure_in : Body → Option Failure
failure_in (failure f) = some f
failure_in _ = none

-- writeJSON of an answer, behind its Cache-Control
unfoldable pub respond : Answer → Response → Response
unfolding decimal
respond a w =
    record (write_header a.status (
      set_header (codes "X-Content-Type-Options") (codes "nosniff") (
        set_header (codes "Content-Type") (codes "application/json; charset=utf-8")
          (set_cache a.cache_control w)))) { failure = failure_in a.body }

-- a handler that answers with a value, given the request's id
abbrev pub answering : (Text → Answer) → Stage
answering f v w st =
    answered (respond (f v.request.request_id) w)
      (record st { body = some ((f v.request.request_id).body) })

-- a page that is written with no call of WriteHeader
abbrev pub page : Text → Stage
page content v w st =
    answered
      (write_header 200 (
        set_header (codes "Cache-Control") (codes "public, max-age=3600")
          (set_header (codes "Content-Type") content w)))
      st

unfoldable pub handle_openapi : Stage
handle_openapi = page (codes "application/yaml; charset=utf-8")

unfoldable pub handle_docs : Stage
handle_docs = page (codes "text/html; charset=utf-8")

-- metrics.handler
unfoldable pub handle_metrics : Stage
handle_metrics v w st =
    answered
      (write_header 200
        (set_header (codes "Content-Type") (codes "text/plain; version=0.0.4; charset=utf-8") w))
      st

-- http.Redirect
unfoldable pub handle_root : Stage
handle_root v w st =
    answered
      (write_header 302 (
        set_header (codes "Content-Type") (codes "text/html; charset=utf-8")
          (set_header (codes "Location") (codes "/docs") w)))
      st

unfoldable pub not_found : Stage
unfolding write_error
not_found v w st =
    answered (write_api_error code_not_found (codes "no such endpoint; see GET /docs") v w) st
