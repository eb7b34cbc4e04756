-- ===== src/Errors.antt =====
-- errors.go, and the trees of wrapped errors that errors.Is and errors.As walk. Of a wrapped error
-- only what they can find in it is kept, not its wording; Errors/Wording.antt
-- has the text of an Error.
pub mod Find
pub mod Wording
use tgju_api_go.Common.{
  ℕ, Bool, true, false, List, [], ◌∷◌, Option, none, some, Text, ◌==◌, ◌||◌, leb, if◌then◌else◌,
}
use tgju_api_go.Market.{Market}

-- the sentinels of errors.go, of package scrape and of the command, those of package context, and
-- every other error
pub data Kind : Type 0 where
  unknown_market request unexpected_status parse empty not_found too_large : Kind
  no_tables canceled deadline_exceeded usage help other : Kind

pub Kind-discrete : Discrete Kind
Kind-discrete = hlevel

abbrev pub code_of : Kind → ℕ
code_of unknown_market = 0
code_of request = 1
code_of unexpected_status = 2
code_of parse = 3
code_of empty = 4
code_of not_found = 5
code_of too_large = 6
code_of no_tables = 7
code_of canceled = 8
code_of deadline_exceeded = 9
code_of usage = 10
code_of help = 11
code_of other = 12

-- identity of sentinels
abbrev pub same_kind : Kind → Kind → Bool
same_kind a b = code_of a == code_of b

-- the operations that an Error names
pub data Op : Type 0 where
  fetching parsing looking_up : Op

-- the fields of Error but the wrapped one
pub record Detail : Type 0 where
  pub op : Op
  pub market : Market
  pub url : Text
  pub status_code : ℕ
  pub attempts : ℕ

-- server.APIError, which is an error too
pub record ApiError : Type 0 where
  pub code : Text
  pub message : Text

-- `wrap` is fmt.Errorf with several %w, and errors.Join
mutual
  pub data Err : Type 0 where
    leaf : Kind → Err
    rich : Detail → Err → Err
    api : ApiError → Err
    wrap : Errs → Err

  pub data Errs : Type 0 where
    nil : Errs
    cons : Err → Errs → Errs

-- fmt.Errorf("%w: %w", a, b)
abbrev pub wrap_both : Kind → Err → Err
wrap_both k e = wrap (cons (leaf k) (cons e nil))

-- errors.Is with a sentinel
unfoldable mutual
  pub is : Kind → Err → Bool
  is k (leaf j) = same_kind j k
  is k (rich d e) = is k e
  is k (api a) = false
  is k (wrap es) = is_in k es

  pub is_in : Kind → Errs → Bool
  is_in k nil = false
  is_in k (cons e es) = is k e || is_in k es

abbrev pub first_of {ℓ} : {A : Type ℓ} → Option A → Option A → Option A
first_of none o = o
first_of (some a) o = some a

-- errors.As with an APIError
unfoldable mutual
  pub as_api : Err → Option ApiError
  as_api (leaf j) = none
  as_api (rich d e) = as_api e
  as_api (api a) = some a
  as_api (wrap es) = as_api_in es

  pub as_api_in : Errs → Option ApiError
  as_api_in nil = none
  as_api_in (cons e es) = first_of (as_api e) (as_api_in es)

-- errors.As with a *tgju.Error
unfoldable mutual
  pub as_rich : Err → Option Detail
  as_rich (leaf j) = none
  as_rich (rich d e) = some d
  as_rich (api a) = none
  as_rich (wrap es) = as_rich_in es

  pub as_rich_in : Errs → Option Detail
  as_rich_in nil = none
  as_rich_in (cons e es) = first_of (as_rich e) (as_rich_in es)

-- errors.Join, of the errors that are not nil
abbrev pub errs_of : List (Option Err) → Errs
errs_of [] = nil
errs_of (none ∷ es) = errs_of es
errs_of (some e ∷ es) = cons e (errs_of es)

abbrev pub join_errs : Errs → Option Err
join_errs nil = none
join_errs (cons e es) = some (wrap (cons e es))

unfoldable pub join : List (Option Err) → Option Err
join es = join_errs (errs_of es)

-- Error.Temporary, of the fields and the wrapped error
unfoldable pub temporary : Detail → Err → Bool
unfolding is
temporary d e =
    if is parse e || is unknown_market e
    then false
    else if d.status_code == 429
    then true
    else if leb 500 d.status_code
    then true
    else if d.status_code == 0
    then true
    else false

-- the results `(v, err)` of a fallible function
pub data Result {ℓ} (A : Type ℓ) : Type ℓ where
  ok : A → Result A
  err : Err → Result A
