-- ===== src/Prelude/Decimal.antt =====
-- strconv.FormatUint(n, 10), which strconv.ParseUint reads back.
pub mod Pairs
use Prim.Native.Nat.{Ordering, ℕ, zero, suc, ◌+◌, ◌-◌, ◌*◌, ◌/◌, ◌%◌, ◌^◌, ◌<◌, ◌≤◌}
use Prim.Native.Char.{Char, char, code, nul, IsScalar}
use Prim.Native.String.{String, compare as compare_text}
use Prim.Native.String.compare
use mathlib.Core.Path.{◌≡◌, refl, ◌∙◌}
use mathlib.Core.Logic.{dite, inl, inr}
use native.Mathlib.Decide.{dec_lt}
use mathlib.Core.Option.{none}
use native.Mathlib.Omega.{arith}
use magento_go.Prelude.Tests.{ltb, Bool-cases, ltb→lt, if◌then◌else◌}
use magento_go.Prelude.Text.{parse_digits, parse_uint}

scalar_digit : (d : ℕ) → d < 10 → IsScalar (48 + d)
scalar_digit d h = ground arith

-- The character of a digit.
unfoldable pub digit_char : ℕ → Char
unfolding scalar_digit dec_lt
digit_char d = dite (dec_lt d 10) (λ h. char (48 + d) (scalar_digit d h)) (λ _. nul)

code-digit_char : (d : ℕ) → d < 10 → code (digit_char d) ≡ 48 + d
unfolding digit_char
code-digit_char d h = ground (arith)

-- The digits of `n` before those written so far; a number has no more digits than its size.
emit : ℕ → ℕ → String → String
emit zero n written = written
emit (suc fuel) n written =
    let longer = String.◌∷◌ (digit_char (n % 10)) written in
    let rest = emit fuel (n / 10) longer in if ltb n 10 then longer else rest

unfoldable pub format_uint : ℕ → String
unfolding emit
format_uint n = emit (suc n) n String.[]

runs : format_uint 1203 ≡ "1203"
unfolding format_uint digit_char
runs = refl

-- Reading the last digit after the digits before it gives the number.
parse_last :
    (max_val n : ℕ) (written : String)
    → n ≤ max_val
    → parse_digits max_val (n / 10) (String.◌∷◌ (digit_char (n % 10)) written)
      ≡ parse_digits max_val n written
unfolding parse_digits
parse_last max_val n written h =
    let small : n % 10 < 10 = omega arith in
    let whole : (n / 10) * 10 + (48 + n % 10 - 48) ≡ n = omega arith in
    rw (code-digit_char (n % 10) small, whole) (ground arith)

parse_digits-emit :
    (max_val fuel n : ℕ) (written : String)
    → n < fuel
    → n ≤ max_val
    → parse_digits max_val 0 (emit fuel n written) ≡ parse_digits max_val n written
unfolding emit
parse_digits-emit max_val zero n written f h = absurd (omega arith)
parse_digits-emit max_val (suc fuel) n written f h = elim (Bool-cases (ltb n 10)) [
  | inl e ↦
      let none_before : 0 ≡ n / 10 = omega (arith, ltb→lt _ _ e) in
      rw (e, none_before) (parse_last max_val n written h)
  | inr e ↦ rw e (
      parse_digits-emit max_val fuel (n / 10) _ (ground arith) (omega arith)
      ∙ parse_last max_val n written h)
]

parse_uint-cons :
    (bits : ℕ) (ch : Char) (s : String)
    → parse_uint bits (String.◌∷◌ ch s) ≡ parse_digits (2 ^ bits - 1) 0 (String.◌∷◌ ch s)
unfolding parse_uint
parse_uint-cons bits ch s =
    let order : compare_text (String.◌∷◌ ch s) "" ≡ Ordering.gt = λ i. compare.cons-nil ch s i in
    rw order refl

-- A text begun by `emit` has a first digit.
parse_uint-emit :
    (bits fuel n : ℕ) (ch : Char) (written : String)
    → parse_uint bits (emit fuel n (String.◌∷◌ ch written))
      ≡ parse_digits (2 ^ bits - 1) 0 (emit fuel n (String.◌∷◌ ch written))
unfolding emit
parse_uint-emit bits zero n ch written = parse_uint-cons bits ch written
parse_uint-emit bits (suc fuel) n ch written = ground (
  arith,
  parse_uint-emit bits fuel (n / 10) (digit_char (n % 10)) (String.◌∷◌ ch written),
  parse_uint-cons bits (digit_char (n % 10)) (String.◌∷◌ ch written),
)

-- A number that fits the width asked for is read back from its digits.
pub parse_uint-format_uint :
    (bits n : ℕ) → n < 2 ^ bits → parse_uint bits (format_uint n) ≡ (n, none)
unfolding format_uint emit parse_digits
parse_uint-format_uint bits n h = ground (
  arith,
  parse_uint-emit bits n (n / 10) (digit_char (n % 10)) "",
  parse_uint-cons bits (digit_char (n % 10)) "",
  parse_digits-emit (2 ^ bits - 1) (suc n) n "" (omega arith) (omega arith),
)
