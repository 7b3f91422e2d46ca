-- ===== src/Prelude/Decimal/Pairs.antt =====
-- Two numbers of Go's %d with a character between them can be told from the text.
use Prim.Native.Nat.{ℕ, zero, suc, ◌+◌, ◌-◌, ◌*◌, ◌/◌, ◌%◌, ◌<◌}
use Prim.Native.Char.{Char, char, code}
use Prim.Native.String.{String, ◌++◌ as ◌<>◌}
use mathlib.Core.Path.{◌≡◌, refl, ap, ◌∙◌}
use mathlib.Core.Logic.{inl, inr}
use text.Mathlib.TextLemmas.{cons-append, nil-append}
use native.Mathlib.Omega.{arith}
use magento_go.Prelude.Tests.{ltb, eqb, Bool-cases, ltb→lt, if◌then◌else◌}
use magento_go.Prelude.Decimal.{digit_char, code-digit_char, emit, format_uint}

abbrev value : ℕ → String → ℕ
value n String.[] = n
value n (String.◌∷◌ ch s) = value (n * 10 + (code ch - 48)) s

-- The number before the first `_` and the one after it.
abbrev pub read_pair : ℕ → String → ℕ × ℕ
read_pair n String.[] = (n, 0)
read_pair n (String.◌∷◌ ch s) =
    let rest = read_pair (n * 10 + (code ch - 48)) s in
    if eqb (code ch) b'_' then (n, value 0 s) else rest

value_last :
    (n : ℕ) (written : String)
    → value (n / 10) (String.◌∷◌ (digit_char (n % 10)) written) ≡ value n written
value_last n written =
    let small : n % 10 < 10 = omega arith in
    let whole : (n / 10) * 10 + (48 + n % 10 - 48) ≡ n = omega arith in
    rw (code-digit_char (n % 10) small, whole) refl

value-emit :
    (fuel n : ℕ) (written : String) → n < fuel → value 0 (emit fuel n written) ≡ value n written
unfolding emit
value-emit zero n written f = absurd (omega arith)
value-emit (suc fuel) n written f = elim (Bool-cases (ltb n 10)) [
  | inl e ↦
      let none_before : 0 ≡ n / 10 = omega (arith, ltb→lt _ _ e) in
      rw (e, none_before) (value_last n written)
  | inr e ↦ rw e (value-emit fuel (n / 10) _ (ground arith) ∙ value_last n written)
]

read_last :
    (n : ℕ) (written : String)
    → read_pair (n / 10) (String.◌∷◌ (digit_char (n % 10)) written) ≡ read_pair n written
read_last n written =
    let small : n % 10 < 10 = omega arith in
    let whole : (n / 10) * 10 + (48 + n % 10 - 48) ≡ n = omega arith in
    rw (code-digit_char (n % 10) small, whole) (ground (arith, small))

read_pair-emit :
    (fuel n : ℕ) (written : String)
    → n < fuel
    → read_pair 0 (emit fuel n written) ≡ read_pair n written
unfolding emit
read_pair-emit zero n written f = absurd (omega arith)
read_pair-emit (suc fuel) n written f = elim (Bool-cases (ltb n 10)) [
  | inl e ↦
      let none_before : 0 ≡ n / 10 = omega (arith, ltb→lt _ _ e) in
      rw e (
        ap (λ k. read_pair k (String.◌∷◌ (digit_char (n % 10)) written)) none_before
        ∙ read_last n written)
  | inr e ↦ rw e (read_pair-emit fuel (n / 10) _ (ground arith) ∙ read_last n written)
]

emit-append :
    (fuel n : ℕ) (written t : String) → emit fuel n written <> t ≡ emit fuel n (written <> t)
unfolding emit
emit-append zero n written t = refl
emit-append (suc fuel) n written t = elim (Bool-cases (ltb n 10)) [
  | inl e ↦ rw e (cons-append (digit_char (n % 10)) written t)
  | inr e ↦ rw e (
      emit-append fuel (n / 10) _ t
      ∙ ap (emit fuel (n / 10)) (cons-append (digit_char (n % 10)) written t))
]

underscore : Char
underscore = char 95 (ground arith)

one_char : (s : String) → "_" <> s ≡ String.◌∷◌ underscore s
unfolding underscore
one_char s = cons-append _ "" s ∙ ap (String.◌∷◌ _) (nil-append s)

pub read_pair-format_uint : (a b : ℕ) → read_pair 0 (format_uint a <> "_" <> format_uint b) ≡ (a, b)
unfolding format_uint underscore
read_pair-format_uint a b =
    rw
      (
        emit-append (suc a) a "" ("_" <> emit (suc b) b ""),
        nil-append ("_" <> emit (suc b) b ""),
        read_pair-emit (suc a) a ("_" <> emit (suc b) b "") (omega arith),
        one_char (emit (suc b) b ""),
        value-emit (suc b) b "" (omega arith),
      )
      refl
