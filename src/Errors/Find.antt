-- ===== src/Errors/Find.antt =====
-- What errors.Is finds in joined and wrapped errors, for errors.go.
use tgju_api_go.Common.{Bool, false, List, [], ◌∷◌, Option, none, some, ◌≡◌, refl, ◌∙◌, arith, any}
use tgju_api_go.Errors.{Kind, Err, Errs, nil, cons, is, is_in, join, errs_of, join_errs}

-- an error that is not nil and that errors.Is finds the sentinel in
abbrev pub holds : Kind → Option Err → Bool
holds k none = false
holds k (some e) = is k e

is_in-errs_of : (k : Kind) (es : List (Option Err)) → is_in k (errs_of es) ≡ any (holds k) es
unfolding is
is_in-errs_of k [] = refl
is_in-errs_of k (none ∷ es) = is_in-errs_of k es
is_in-errs_of k (some e ∷ es) = ground (arith, is_in-errs_of k es)

holds_join : (k : Kind) (es : Errs) → holds k (join_errs es) ≡ is_in k es
unfolding is
holds_join k nil = refl
holds_join k (cons e es) = refl

-- errors.Is finds a sentinel in joined errors exactly when it finds it in one of them.
pub is-join : (k : Kind) (es : List (Option Err)) → holds k (join es) ≡ any (holds k) es
unfolding join
is-join k es = holds_join k (errs_of es) ∙ is_in-errs_of k es
