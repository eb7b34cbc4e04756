-- ===== src/Floats.antt =====
-- float64 values by their bit patterns, and the operations on them that the program calls. The
-- arithmetic of floats is not modelled: the operations are a parameter.
use tgju_api_go.Common.{ℕ, Bool, Option, Text, ◌==◌, ◌||◌, ◌^◌}

-- the bit pattern of a float64
abbrev pub Float64 : Type 0
Float64 = ℕ

-- `v == 0`, which holds of both zeros
abbrev pub is_zero : Float64 → Bool
is_zero v = v == 0 || v == 2 ^ 63

pub record Floats : Type 0 where
  -- strconv.ParseFloat(s, 64); `none` is an error
  pub parse : Text → Option Float64
  -- strconv.FormatFloat(v, 'f', -1, 64)
  pub format : Float64 → Text
  -- fmt.Sprintf("%.2f", v)
  pub format2 : Float64 → Text
  -- a / 10
  pub tenth : Float64 → Float64
  -- a - b
  pub minus : Float64 → Float64 → Float64
