-- ===== src/Server/Router/Noted.antt =====
-- What the router of server/server.go notes: the pattern of the endpoint that it dispatches to.
use tgju_api_go.Common.{
  Bool, true, false, List, [], ◌∷◌, Option, none, some, Text, codes, ◌≡◌, inl, inr, refl,
  if◌then◌else◌, Bool-cases, All, All-append,
}
use tgju_api_go.Server.Guard.{Response}
use tgju_api_go.Server.Handlers.{Service}
use tgju_api_go.Server.Stages.{State, Visit, Outcome, answered, panicked, Stage, record_route}
use tgju_api_go.Server.Pages.{handle_openapi, handle_docs, handle_metrics, handle_root, not_found}
use tgju_api_go.Server.Router.{
  Entry, entries, metrics_entry, registered, find, match_segments, segments, or_found, dispatched,
  is_root, is_get, redirect, or_moved, routed, mux,
}

-- the route that an answer leaves
abbrev pub route_in : Outcome → Option Text
route_in (answered w st) = some st.route
route_in (panicked p w st) = none

-- The route that the router notes: the pattern of the endpoint that the path matches, or that of the
-- root; where the method is no GET, nothing matches, or the path is not clean, what was noted before.
abbrev pub noted : List Text → Text → Option (Entry × List Text) → Text
noted path old (some (e, vs)) = e.pattern
noted path old none = if is_root path then codes "/" else old

abbrev pub unmoved : Option Text → Text → Text → Text
unmoved none old route = route
unmoved (some to) old route = old

abbrev pub route_for : List Entry → Visit → Text → Text
route_for es v old =
    unmoved v.moved old (if is_get v.request.method then noted v.path old (find es v.path) else old)

-- a stage that leaves the route as it is
abbrev Leaves : Stage → Type 0
Leaves h = (v : Visit) (w : Response) (st : State) → route_in (h v w st) ≡ some st.route

abbrev EntryLeaves : Entry → Type 0
EntryLeaves e = (vs : List Text) → Leaves (e.stage vs)

entries-All : (s : Service) → All EntryLeaves (entries s)
unfolding handle_openapi handle_docs
entries-All s = (
  λ vs v w st. refl,
  (
    λ vs v w st. refl,
    (
      λ vs v w st. refl,
      (
        λ vs v w st. refl,
        (
          λ vs v w st. refl,
          (
            λ vs v w st. refl,
            (
              λ vs v w st. refl,
              (
                λ vs v w st. refl,
                (
                  λ vs v w st. refl,
                  (
                    λ vs v w st. refl,
                    (λ vs v w st. refl, (λ vs v w st. refl, (λ vs v w st. refl, tt))),
                  ),
                ),
              ),
            ),
          ),
        ),
      ),
    ),
  ),
)

registered-All : (s : Service) (metrics : Bool) → All EntryLeaves (registered s metrics)
unfolding registered handle_metrics
registered-All s true =
    All-append EntryLeaves (entries s) (metrics_entry s ∷ []) (entries-All s)
      (λ vs v w st. refl, tt)
registered-All s false = All-append EntryLeaves (entries s) [] (entries-All s) tt

abbrev Found : Option (Entry × List Text) → Type 0
Found none = Unit
Found (some (e, vs)) = EntryLeaves e

or_found-Found :
    (e : Entry) (m : Option (List Text)) (later : Option (Entry × List Text))
    → EntryLeaves e
    → Found later
    → Found (or_found e m later)
or_found-Found e none later s t = t
or_found-Found e (some vs) later s t = s

find-Found : (es : List Entry) (path : List Text) → All EntryLeaves es → Found (find es path)
unfolding find
find-Found [] path h = tt
find-Found (e ∷ es) path (h, hs) =
    or_found-Found e (match_segments (segments e.pattern) path) (find es path) h
      (find-Found es path hs)

dispatched_route :
    (path : List Text) (f : Option (Entry × List Text)) (v : Visit) (w : Response) (st : State)
    → Found f
    → route_in (dispatched path f v w st) ≡ some (noted path st.route f)
unfolding record_route handle_root not_found
dispatched_route path none v w st h = elim (Bool-cases (is_root path)) [
  | inl e ↦ rw e refl
  | inr e ↦ rw e refl
]
dispatched_route path (some (e, vs)) v w st h = h vs v w (record st { route = e.pattern })

routed_route :
    (es : List Entry) (v : Visit) (w : Response) (st : State)
    → All EntryLeaves es
    → route_in (routed es v w st)
      ≡ some (if is_get v.request.method then noted v.path st.route (find es v.path) else st.route)
unfolding not_found
routed_route es v w st k = elim (Bool-cases (is_get v.request.method)) [
  | inl e ↦ rw e (dispatched_route v.path (find es v.path) v w st (find-Found es v.path k))
  | inr e ↦ rw e refl
]

or_moved_route :
    (o : Option Text) (h : Stage) (v : Visit) (w : Response) (st : State) (route : Text)
    → route_in (h v w st) ≡ some route
    → route_in (or_moved o h v w st) ≡ some (unmoved o st.route route)
unfolding redirect
or_moved_route none h v w st route e = e
or_moved_route (some to) h v w st route e = refl

pub mux_route :
    (s : Service) (metrics : Bool) (v : Visit) (w : Response) (st : State)
    → route_in (mux s metrics v w st) ≡ some (route_for (registered s metrics) v st.route)
unfolding mux
mux_route s metrics v w st =
    or_moved_route v.moved (routed (registered s metrics)) v w st _
      (routed_route (registered s metrics) v w st (registered-All s metrics))
