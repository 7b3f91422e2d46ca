-- ===== src/Import/Fixture.antt =====
-- A standard library for the tests: whole numbers for `float64`, texts for `time.Time`.
use magento_go.Prelude.{
  ℕ, String, Bool, true, false, Option, none, some, ◌==◌, string_eq, if◌then◌else◌,
}
use magento_go.Prelude.Text.{NumErr, parse_uint}
use magento_go.Import.Std.{Std}

abbrev is_nil : Option NumErr → Bool
is_nil none = true
is_nil (some e) = false

abbrev pub whole : Std
whole = record {
  Float = ℕ;
  float_zero = 0;
  parse_float = λ v. ((parse_uint 53 v).0, is_nil (parse_uint 53 v).1);
  Time = String;
  parse_time = λ layout v. if v == layout then some v else none;
}
