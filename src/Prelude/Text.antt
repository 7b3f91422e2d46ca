-- ===== src/Prelude/Text.antt =====
-- Go's strings and the functions of `strings` and `strconv` that the program calls.
use Prim.Native.Nat.{ℕ, zero, suc, ◌+◌, ◌-◌, ◌*◌, ◌^◌, ◌≤◌}
use Prim.Native.Char.{Char, code}
use Prim.Native.String.{String}
use mathlib.Core.Path.{◌≡◌, refl}
use mathlib.Core.Bool.{Bool, true, false, ◌&&◌, ◌||◌}
use mathlib.Core.Option.{Option, none, some}
use mathlib.Core.List.{List, [], ◌∷◌}
use native.Mathlib.Omega.{arith}
use magento_go.Prelude.Tests.{ltb, leb, eqb, if◌then◌else◌}
use magento_go.Prelude.Classes.{◌==◌, string_eq}
use magento_go.Prelude.Int.{ℤ, pos, negsuc, two_63}

-- unicode.IsSpace
unfoldable pub is_space : Char → Bool
is_space ch =
    let c = code ch in
    (leb 9 c && leb c 13)
    || eqb c 32
    || eqb c 0x85
    || eqb c 0xa0
    || eqb c 0x1680
    || (leb 0x2000 c && leb c 0x200a)
    || eqb c 0x2028
    || eqb c 0x2029
    || eqb c 0x202f
    || eqb c 0x205f
    || eqb c 0x3000

unfoldable pub trim_left : String → String
trim_left String.[] = String.[]
trim_left (String.◌∷◌ c s) = let rest = trim_left s in if is_space c then rest else String.◌∷◌ c s

abbrev cons_trimmed : Char → String → String
cons_trimmed c String.[] = if is_space c then String.[] else String.◌∷◌ c String.[]
cons_trimmed c (String.◌∷◌ d s) = String.◌∷◌ c (String.◌∷◌ d s)

unfoldable pub trim_right : String → String
unfolding is_space
trim_right String.[] = String.[]
trim_right (String.◌∷◌ c s) = cons_trimmed c (trim_right s)

-- strings.TrimSpace
unfoldable pub trim_space : String → String
unfolding is_space trim_left trim_right
trim_space s = trim_right (trim_left s)

-- strings.Split at a separator of one character
abbrev cons_piece : Char → List String → List String
cons_piece c [] = String.◌∷◌ c String.[] ∷ []
cons_piece c (p ∷ ps) = String.◌∷◌ c p ∷ ps

unfoldable pub split : ℕ → String → List String
split sep String.[] = String.[] ∷ []
split sep (String.◌∷◌ c s) =
    let rest = split sep s in if eqb (code c) sep then String.[] ∷ rest else cons_piece c rest

-- strconv.NumError's Err
pub data NumErr : Type 0 where
  syntax_err range_err : NumErr

-- The digits that are left, with the number read so far. A call of strconv returns a value beside
-- its error: 0 for bad syntax, the largest value for a number out of range.
unfoldable pub parse_digits : ℕ → ℕ → String → ℕ × Option NumErr
parse_digits max_val n String.[] = (n, none)
parse_digits max_val n (String.◌∷◌ ch s) =
    let c = code ch in
    let n1 = n * 10 + (c - 48) in
    let rest = parse_digits max_val n1 s in
    if leb 48 c && leb c 57
    then (if ltb max_val n1 then (max_val, some range_err) else rest)
    else (0, some syntax_err)

-- strconv.ParseUint(s, 10, bits)
unfoldable pub parse_uint : ℕ → String → ℕ × Option NumErr
unfolding parse_digits
parse_uint bits s = if s == "" then (0, some syntax_err) else parse_digits (2 ^ bits - 1) 0 s

abbrev signed : Bool → ℕ × Option NumErr → Option ℤ
signed neg (un, some e) = none
signed true (zero, none) = some (pos 0)
signed true (suc n, none) = if ltb two_63 (suc n) then none else some (negsuc n)
signed false (un, none) = if leb two_63 un then none else some (pos un)

-- strconv.Atoi where the value beside an error is not used
unfoldable pub atoi : String → Option ℤ
unfolding parse_uint
atoi String.[] = none
atoi (String.◌∷◌ ch s) =
    if eqb (code ch) 45
    then signed true (parse_uint 64 s)
    else if eqb (code ch) 43
    then signed false (parse_uint 64 s)
    else signed false (parse_uint 64 (String.◌∷◌ ch s))

parse_digits-le :
    (max_val n : ℕ) (s : String) → n ≤ max_val → (parse_digits max_val n s).0 ≤ max_val
unfolding parse_digits
parse_digits-le max_val n String.[] h = h
parse_digits-le max_val n (String.◌∷◌ ch s) h =
    ground (arith, parse_digits-le max_val (n * 10 + (code ch - 48)) s)

-- Whatever the text, the number returned fits the width asked for.
pub parse_uint_bound : (bits : ℕ) (s : String) → (parse_uint bits s).0 ≤ 2 ^ bits - 1
unfolding parse_uint
parse_uint_bound bits s = ground (arith, parse_digits-le (2 ^ bits - 1) 0 s)

trim_runs : trim_space " a b\t" ≡ "a b"
unfolding trim_space
trim_runs = refl

split_runs : split b'|' "a||b" ≡ "a" ∷ "" ∷ "b" ∷ []
unfolding split
split_runs = refl

parse_runs :
    (parse_uint 16 "70000" ≡ (65535, some range_err))
    × (parse_uint 16 "12" ≡ (12, none))
    × (atoi "-7" ≡ some (negsuc 6))
    × (atoi "+" ≡ none)
unfolding parse_uint atoi
parse_runs = (refl, refl, refl, refl)
