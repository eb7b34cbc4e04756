-- ===== src/Command/Arguments.antt =====
-- The loop over the arguments of cmd/tgju/flags.go.
use tgju_api_go.Common.{
  ℕ, zero, suc, ◌≤◌, ◌<◌, List, [], ◌∷◌, ◌++◌, some, Text, ◌≡◌, refl, arith, length,
}
use tgju_api_go.Errors.{Result, ok, err}
use tgju_api_go.Command.{Parsed, refused, rest, parse_err, parse_rest, parse_from, parse}

-- flag.FlagSet.Parse leaves no more arguments than it is given.
abbrev pub Shrinks : (List Text → Parsed) → Type 0
Shrinks flags = (args left : List Text) → flags args ≡ rest left → length left ≤ length args

module _ (flags : List Text → Parsed) (shrinks : Shrinks flags) where
  parse_rest-some :
      (n : ℕ) (positional args : List Text) (p : Parsed)
      → ((ps more : List Text)
          → length more < n
          → (r : Result (List Text)) × (parse_from flags n ps more ≡ some r))
      → length args ≤ n
      → flags args ≡ p
      → (r : Result (List Text)) × (parse_rest flags positional p (parse_from flags n) ≡ some r)
  parse_rest-some n ps args (refused e) go h f = (err (parse_err e), refl)
  parse_rest-some n ps args (rest []) go h f = (ok ps, refl)
  parse_rest-some n ps args (rest (a ∷ more)) go h f =
      let b = shrinks args (a ∷ more) f in go (ps ++ a ∷ []) more (omega arith)

  parse_from-some :
      (n : ℕ) (positional args : List Text)
      → length args < n
      → (r : Result (List Text)) × (parse_from flags n positional args ≡ some r)
  unfolding parse_from
  parse_from-some zero ps args h = absurd (omega arith)
  parse_from-some (suc n) ps args h =
      parse_rest-some n ps args (flags args) (λ qs more k. parse_from-some n qs more k)
        (omega arith) refl

  -- The loop over the arguments ends, for each round takes one of them away, if package flag
  -- leaves no more arguments than it gets.
  pub parse_total : (args : List Text) → (r : Result (List Text)) × (parse flags args ≡ some r)
  unfolding parse
  parse_total args = parse_from-some (suc (length args)) [] args (omega arith)
