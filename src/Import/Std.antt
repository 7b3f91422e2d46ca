-- ===== src/Import/Std.antt =====
-- What the importer uses of Go's standard library that has no counterpart here: `float64` with
-- `strconv.ParseFloat(s, 64)`, and `time.Time` with `time.Parse(layout, s)`. Both are parameters.
use magento_go.Prelude.{String, Bool, Option}

pub record Std : Type 1 where
  pub Float : Type 0
  pub float_zero : Float
  -- ParseFloat: the value, which the program may use beside an error, and whether the error is nil.
  pub parse_float : String → Float × Bool
  pub Time : Type 0
  -- time.Parse: `none` for an error.
  pub parse_time : String → String → Option Time
