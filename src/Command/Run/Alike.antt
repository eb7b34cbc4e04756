-- ===== src/Command/Run/Alike.antt =====
-- `get` of cmd/tgju/commands.go and the endpoint of a market in server/handlers.go show one board.
use tgju_api_go.Common.{
  ℕ, Bool, true, false, List, [], ◌∷◌, ◌++◌, Option, none, some, Text, ◌≡◌, ◌↔◌, refl, sym, ap, ◌∙◌,
  if◌then◌else◌, is_nil, Bool-cases, inl, inr,
}
use tgju_api_go.Strings.{is_space, trim_space, split}
use tgju_api_go.Strings.Blank.{split-blank}
use tgju_api_go.Floats.{Floats}
use tgju_api_go.Market.{Market, parse_market}
use tgju_api_go.Errors.{Result, ok, err}
use tgju_api_go.Snapshot.{Category, Snapshot, is_empty}
use tgju_api_go.Server.Filter.{Query, add_keys, split_keys, filter_categories}
use tgju_api_go.Server.Handlers.{
  Service, Answer, board, served, snapshot, fetched, filtered, market_by, handle_market,
}
use tgju_api_go.Command.{Parsed, parse, filter}
use tgju_api_go.Command.Alike.{filter-eq-filter_by}
use tgju_api_go.Command.Output.{Output, json_snapshot, write_snapshot}
use tgju_api_go.Command.Units.{Format, format_json, PriceUnit}
use tgju_api_go.Command.Flags.{add_parts, split_csv}
use tgju_api_go.Command.Run.{
  known, parse_output, GetFlags, kept, print_kept, get, ran, ran_by, ◌>>=◌,
}

add_parts_eq : (out parts : List Text) → add_parts out parts ≡ add_keys out parts
unfolding add_parts add_keys
add_parts_eq out [] = refl
add_parts_eq out (p ∷ ps) =
    rw (add_parts_eq out ps, add_parts_eq (out ++ trim_space p ∷ []) ps) refl

comma_is_no_space : is_space b',' ≡ false
unfolding is_space
comma_is_no_space = refl

nil_of : (t : Text) → is_nil t ≡ true → t ≡ []
nil_of [] h = refl
nil_of (c ∷ t) h = cc

split_csv-eq-split_keys : (raw : Text) → split_csv raw ≡ split_keys raw
unfolding split_csv split_keys
split_csv-eq-split_keys raw =
    add_parts_eq [] (split b',' raw) ∙ by_test (is_nil (trim_space raw)) refl
  where
    by_test :
        (b : Bool)
        → is_nil (trim_space raw) ≡ b
        → add_keys [] (split b',' raw)
          ≡ (if is_nil (trim_space raw) then [] else add_keys [] (split b',' raw))
    by_test false h = rw h refl
    by_test true h =
        let blank = nil_of (trim_space raw) h in
        rw (split-blank b',' comma_is_no_space raw blank, h) refl

-- The command's filter with the category as the service trims it is the service's.
pub filter-eq-filter_categories :
    (cs : List Category) (q : Query)
    → filter cs (trim_space q.category) (split_csv q.keys) ≡ filter_categories cs q
unfolding filter_categories
filter-eq-filter_categories cs q =
    rw (split_csv-eq-split_keys q.keys)
      (filter-eq-filter_by (trim_space q.category) (split_keys q.keys) cs)

ran-ok :
    (x : Option (Result Output)) (o : Output)
    → (x ≡ some (ok o) → ran x ≡ some (ran_by (ok o)))
      × (ran x ≡ some (ran_by (ok o)) → x ≡ some (ok o))
ran-ok none o = (λ h. absurd (cc h), λ h. absurd (cc h))
ran-ok (some (err e)) o = (λ h. absurd (cc h), λ h. absurd (cc h))
ran-ok (some (ok p)) o = (
  λ h. ap ran h,
  λ h. let same : p ∷ [] ≡ o ∷ [] = cc h in let eq : p ≡ o = cc same in ap (λ y. some (ok y)) eq,
)

module _ (fl : Floats) (stamp : ℕ → Text) (flags : List Text → Parsed) (s : Service) where
  -- `get` behind its arguments, by the board's name
  abbrev got : GetFlags → Format × PriceUnit → Result Snapshot → Option (Result Output)
  got v out r = r >>= λ snap. print_kept fl stamp flags out (kept v snap)

  get_eq :
      (v : GetFlags) (u : PriceUnit) (name : Text) (args : List Text)
      → parse flags args ≡ some (ok (name ∷ []))
      → parse_output v.format v.unit ≡ ok (format_json, u)
      → get fl stamp flags v s.fetch args ≡ ran (got v (format_json, u) (snapshot s name))
  unfolding get snapshot
  get_eq v u name args p o = rw (p, o) (ap ran (by_market (parse_market name)))
    where
      by_market :
          (o : Option Market)
          → (known o >>= λ m.
              s.fetch m >>= λ snap. print_kept fl stamp flags (format_json, u) (kept v snap))
            ≡ got v (format_json, u) (fetched s o)
      by_market none = refl
      by_market (some m) = refl

  print_kept_eq :
      (u : PriceUnit) (snap : Snapshot)
      → is_empty snap ≡ false
      → print_kept fl stamp flags (format_json, u) snap ≡ some (ok (json_snapshot snap))
  unfolding write_snapshot
  print_kept_eq u snap h = rw h refl

  print_kept-json :
      (u : PriceUnit) (k snap : Snapshot)
      → print_kept fl stamp flags (format_json, u) k ≡ some (ok (json_snapshot snap))
      → k ≡ snap
  unfolding write_snapshot
  print_kept-json u k snap h = elim (Bool-cases (is_empty k)) [
    | inl e ↦ absurd (cc (rw e at h))
    | inr e ↦ let same : json_snapshot k ≡ json_snapshot snap = cc (rw e at h) in cc same
  ]

  kept_eq :
      (v : GetFlags) (q : Query) (b : Snapshot)
      → v.category ≡ trim_space q.category
      → v.keys ≡ q.keys
      → kept v b ≡ filtered s b q
  kept_eq v q b c k =
      ap (λ cs. record b { categories = cs })
        (rw (c, k) (filter-eq-filter_categories b.categories q))

  -- Both filters leave the same of a board, so both sides show it or neither does.
  shown_alike :
      (v : GetFlags) (u : PriceUnit) (q : Query) (id : Text) (snap : Snapshot) (r : Result Snapshot)
      → v.category ≡ trim_space q.category
      → v.keys ≡ q.keys
      → is_empty snap ≡ false
      → (market_by s id q r ≡ served s (board snap))
        ↔ (got v (format_json, u) r ≡ some (ok (json_snapshot snap)))
  shown_alike v u q id snap (err e) c k n = (λ h. absurd (cc h), λ h. absurd (cc h))
  shown_alike v u q id snap (ok b) c k n = (
    λ h.
        let same : board (filtered s b q) ≡ board snap = ap (λ (a : Answer). a.body) h in
        let eq : kept v b ≡ snap = kept_eq v q b c k ∙ (cc same) in
        ap (print_kept fl stamp flags (format_json, u)) eq ∙ print_kept_eq u snap n,
    λ h.
        ap (λ x. served s (board x))
          (sym (kept_eq v q b c k) ∙ print_kept-json u (kept v b) snap h),
  )

  -- For the same market, the same keys and the category that the query names but for the white space
  -- around it, `tgju get --format json` prints a board with instruments exactly when the service
  -- answers with it.
  pub get-handle_market :
      (v : GetFlags) (u : PriceUnit) (q : Query) (id name : Text) (args : List Text)
      (snap : Snapshot)
      → parse flags args ≡ some (ok (name ∷ []))
      → parse_output v.format v.unit ≡ ok (format_json, u)
      → v.category ≡ trim_space q.category
      → v.keys ≡ q.keys
      → is_empty snap ≡ false
      → (handle_market s id name q ≡ served s (board snap))
        ↔ (get fl stamp flags v s.fetch args ≡ some (ran_by (ok (json_snapshot snap))))
  unfolding handle_market
  get-handle_market v u q id name args snap p o c k n =
      let (forth, back) = shown_alike v u q id snap (snapshot s name) c k n in
      let (whole, part) = ran-ok (got v (format_json, u) (snapshot s name)) (json_snapshot snap) in
      rw (get_eq v u name args p o) (λ h. whole (forth h), λ h. back (part h))
