-- ===== src/Errors/Wording.antt =====
-- Error.Error of errors.go. http.StatusText is a parameter, and the text of the wrapped error an argument.
use tgju_api_go.Common.{ℕ, ◌++◌, Text, codes, ◌==◌, if◌then◌else◌, is_nil, ltb}
use tgju_api_go.Strings.{decimal}
use tgju_api_go.Errors.{Op, fetching, parsing, looking_up, Detail}

-- the field Op
abbrev pub op_text : Op → Text
op_text fetching = codes "fetch"
op_text parsing = codes "parse"
op_text looking_up = codes "lookup"

abbrev pub spaced : Text → Text
spaced t = if is_nil t then t else codes " " ++ t

module _ (status_text : ℕ → Text) where
  abbrev pub status_part : ℕ → Text
  status_part n =
      if n == 0
      then codes ""
      else codes " (status " ++ (decimal n ++ (spaced (status_text n) ++ codes ")"))

  abbrev pub attempts_part : ℕ → Text
  attempts_part n =
      if ltb 1 n then codes " after " ++ (decimal n ++ codes " attempts") else codes ""

  abbrev pub market_part : Text → Text
  market_part m = if is_nil m then codes "" else codes ": " ++ m

  -- Op and Err are never empty: every Error is made with both.
  unfoldable pub error_text : Detail → Text → Text
  unfolding decimal
  error_text d wrapped =
      codes "tgju"
      ++ (market_part d.market
          ++ (codes ": "
              ++ (op_text d.op
                  ++ (status_part d.status_code
                      ++ (attempts_part d.attempts ++ (codes ": " ++ wrapped))))))
