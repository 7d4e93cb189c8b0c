-- ===== src/Base/Integers.antt =====
-- strconv.ParseInt and strconv.ParseBool (Go 1.12), which also give a value with an error.
use Prim.Native.Nat.{ℕ, ◌+◌, ◌-◌, ◌*◌, ◌^◌}
use mathlib.Core.Bool.{Bool, true, false, ◌&&◌, ◌||◌}
use mathlib.Core.Option.{Option, none, some}
use mathlib.Core.List.{[], ◌∷◌}
use meeseeks_box.Base.Tests.{eqb, ltb, leb, in_range, if◌then◌else◌}
use meeseeks_box.Base.Strings.{Bytes, str, ◌==◌, contains}
use meeseeks_box.Base.Results.{Result, ok, err, Error, fault}

abbrev pub syntax_error : Error
syntax_error = fault (str "invalid syntax")

abbrev pub range_error : Error
range_error = fault (str "value out of range")

-- strconv.ParseUint: a number, no number, or one of more than 64 bits.
pub data Unsigned : Type 0 where
  value : ℕ → Unsigned
  no_number too_large : Unsigned

unfoldable pub digit_of : ℕ → Option ℕ
digit_of c =
    if in_range 48 57 c
    then some (c - 48)
    else if in_range 97 122 c
    then some (c - 87)
    else if in_range 65 90 c
    then some (c - 55)
    else none

abbrev pub digit_below : ℕ → Option ℕ → Option ℕ
digit_below base none = none
digit_below base (some d) = if ltb d base then some d else none

unfoldable pub number_from : ℕ → ℕ → Bytes → Unsigned
number_from base n [] = value n
number_from base n (c ∷ s) = elim (digit_below base (digit_of c)) [
  | none ↦ no_number
  | some d ↦ elim (ltb (n * base + d) (2 ^ 64)) [
    | true ↦ number_from base (n * base + d) s
    | false ↦ too_large
  ]
]

-- The base is that of the prefix: 0x, 0, or none.
unfoldable pub parse_unsigned : Bytes → Unsigned
parse_unsigned [] = no_number
parse_unsigned (c ∷ []) = if eqb c 48 then value 0 else number_from 10 0 (c ∷ [])
parse_unsigned (c ∷ d ∷ s) =
    if eqb c 48 && (eqb d 120 || eqb d 88)
    then (if s == [] then no_number else number_from 16 0 s)
    else if eqb c 48
    then number_from 8 0 (d ∷ s)
    else number_from 10 0 (c ∷ d ∷ s)

-- A number with an error, beside which it is kept. A negative number is read as 0, which is what
-- each limit does with it.
abbrev pub Number : Type 0
Number = ℕ × Result (Unit {0})

abbrev pub positive : Unsigned → Number
positive no_number = (0, err syntax_error)
positive too_large = (2 ^ 63 - 1, err range_error)
positive (value n) = if ltb n (2 ^ 63) then (n, ok tt) else (2 ^ 63 - 1, err range_error)

abbrev pub negative : Unsigned → Number
negative no_number = (0, err syntax_error)
negative too_large = (0, err range_error)
negative (value n) = if leb n (2 ^ 63) then (0, ok tt) else (0, err range_error)

-- strconv.ParseInt, of base 0 and 64 bits
unfoldable pub parse_int : Bytes → Number
parse_int [] = (0, err syntax_error)
parse_int (c ∷ s) =
    if eqb c 43
    then positive (parse_unsigned s)
    else if eqb c 45
    then negative (parse_unsigned s)
    else positive (parse_unsigned (c ∷ s))

-- strconv.ParseBool
abbrev pub parse_bool : Bytes → Bool × Result (Unit {0})
parse_bool s =
    if contains (str "1" ∷ str "t" ∷ str "T" ∷ str "true" ∷ str "TRUE" ∷ str "True" ∷ []) s
    then (true, ok tt)
    else if contains (str "0" ∷ str "f" ∷ str "F" ∷ str "false" ∷ str "FALSE" ∷ str "False" ∷ []) s
    then (false, ok tt)
    else (false, err syntax_error)
