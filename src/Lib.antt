-- ===== src/Lib.antt =====
-- Verification of tgju-api-go, a Go library that reads the price boards of tgju.org, the HTTP
-- service over it, and the command.
--
-- A fetch goes through the parts in this order. The client (client.go) asks the cache (cache.go)
-- for a market's board. On a miss the transport (transport.go) gets the page, with retries; the
-- scraper (internal/scrape/scrape.go) finds the market tables with the queries of
-- internal/dom/dom.go and reads their rows, with the cells cleaned by internal/numfmt/numfmt.go;
-- convert.go makes a snapshot of them (snapshot.go); and an empty one is an error (errors.go). The
-- service (server/) routes a request through its middlewares to a handler, which answers with
-- snapshots, filtered or in the older layouts, or with a classified error; the command (cmd/tgju)
-- prints them, or ends with an exit code.
--
-- Files and what they model:
--   Common, Strings, Floats: shared types and helpers; texts are lists of code points, and the Go
--     functions of packages strings and unicode that the program calls are written out over them.
--     Float64 values are bit patterns, and their arithmetic and strconv are a parameter
--     (Floats.Floats).
--   Numfmt: Digits, Clean, Value (the loop is scan, its switch scan_rune) and Change.
--   Dom: the node tree with walk, Find, FindAll, Children, Attr, HasClass, Classes, Tag, TagClass
--     and Text. golang.org/x/net/html is a parameter (Dom.Html); a nil node is none.
--   Scrape: Tables, parseTable, parseHead (head_of), parseRow (row_of), statusOf and slugFromHref.
--     A column index of -1 is none. The headers' Persian words are given by their code points.
--   Market: market.go; a map is an association list.
--   Snapshot: snapshot.go; `for item := range s.All()` is range, with a body that says whether the
--     loop goes on.
--   Convert: convert.go.
--   Errors: errors.go; errors are trees, of which errors.Is and errors.As are the searches.
--     Errors.Wording: the text of an Error, for the text of the one that it wraps.
--   Transport: transport.go; get is recursion on the attempts that are left, and so needs no other
--     fuel. Durations are 64-bit patterns that wrap around when they double. What each exchange,
--     each pause and the context give is a parameter (Transport.World).
--   Cache: cache.go; entries are cells of a heap that only grows and the map holds their indices.
--     Every critical section is one step; Cache.Flight has the step relation and its runs.
--   Client: client.go; load, Fetch (fetch), FetchAll (fetch_all) and Item (item). What the
--     goroutines of FetchAll come to, and the order in which they end, is a parameter
--     (Client.Round).
--   Options: options.go; an Option is a constructor with the function's arguments. The HTTP client,
--     the logger, the clock and http.CanonicalHeaderKey are a parameter (Options.Env).
--   Server.Render, Server.Legacy, Server.Filter: server/render.go, server/legacy.go, and
--     filterCategories and splitKeys of server/handlers.go. Bodies are values before their JSON
--     encoding.
--   Server.Handlers: the handlers of server/handlers.go, handleLegacy and cacheControl, each as a
--     function from what the client gives (Server.Handlers.Service) to an answer.
--   Server.Metrics, Server.Metrics.Page: server/metrics.go, the series with observe and the text of
--     /metrics. The verbs of package fmt for floats and quoted texts are a parameter, and the order
--     in which the map gives its keys is an argument.
--   Server.Guard, Server.Limiter, Server.Recorder: the middlewares of server/middleware.go that
--     decide by the request alone, the token buckets and the status recorder. Token arithmetic is a
--     parameter (Server.Limiter.Arith).
--   Server.Stages: all middlewares over the state that requests share. A stage ends with a response
--     or with a panic. The clock, the minted identifier and net.SplitHostPort are given.
--   Server.Pages, Server.Router: the handlers as they write on a response, notFound, handleRoot and
--     the pages of server/docs.go; the endpoints that build registers, with the dispatch of
--     http.ServeMux by their patterns; the path that it cleans a request's path to is given.
--   Server.Build: server/options.go, and New and build of server/server.go, with the chain in the
--     order of the code.
--   Command: the exit codes of cmd/tgju/main.go, filter of cmd/tgju/commands.go, and isUpstream
--     and parse of cmd/tgju/flags.go. The loop of parse is on fuel, one more than the arguments,
--     which is enough where package flag leaves no more arguments than it gets.
--   Command.Units, Command.Output: cmd/tgju/output.go; a panic is none, and what goes to
--     encoding/json and encoding/csv is a value.
--   Command.Flags: the fallbacks from the environment and client of cmd/tgju/flags.go, splitCSV and
--     displayAddr of cmd/tgju/serve.go.
--   Command.Serve: serve of cmd/tgju/serve.go. What ListenAndServe, Shutdown and the context come to
--     is an argument.
--   Command.Run, Command.Version, Command.Watch: the commands of cmd/tgju/commands.go and run of
--     cmd/tgju/main.go. What the flags hold once they are parsed is an argument. The loop of watch
--     is on fuel, for it ends only with the context; one unit for each round is enough.
--   CheckSpec: internal/cmd/checkspec/main.go, the check of the OpenAPI document, with its regular
--     expressions written out. The lines of the document, or the error of reading them, are given.
--   Healthcheck: internal/cmd/healthcheck/main.go, with what the exchange comes to as an argument.
--   Examples: concrete inputs, on which the theorems are applied.
--
-- Not modelled: logging, JSON and CSV encoding, sockets and signals; the definitions of flags and
-- their help texts; the wording of errors but Error.Error; Amount.Rial, which rounds a float; the
-- text of /docs and /openapi.yaml; when a deadline passes; the other tools under internal/cmd and
-- the programs under examples.
pub mod Common
pub mod Strings
pub mod Floats
pub mod Numfmt
pub mod Dom
pub mod Scrape
pub mod Market
pub mod Snapshot
pub mod Convert
pub mod Errors
pub mod Transport
pub mod Cache
pub mod CheckSpec
pub mod Healthcheck
pub mod Client
pub mod Options
pub mod Server
pub mod Command
pub mod Examples
