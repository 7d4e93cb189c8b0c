-- ===== src/Base/Decimal.antt =====
-- The decimal text of a uint64 (`%d`), and strconv.ParseUint(s, 10, 64).
use native.Mathlib.Nat.{pow-suc}
use meeseeks_box.Base.{
  ap, ℕ, zero, suc, ◌+◌, ◌-◌, ◌*◌, ◌/◌, ◌%◌, ◌^◌, ◌<◌, ◌≡◌, refl, ◌&&◌, [], ◌∷◌, Bytes, str, ltb,
  leb, if◌then◌else◌, arith, Result, ok, err, fault, ◌∙◌, Bool-cases, inl, inr,
}

-- Twenty rounds are enough below 2 ^ 64.
unfoldable pub decimal_from : ℕ → ℕ → Bytes → Bytes
decimal_from zero n acc = acc
decimal_from (suc f) n acc =
    let more = decimal_from f (n / 10) ((48 + n % 10) ∷ acc) in
    if ltb n 10 then (48 + n % 10) ∷ acc else more

unfoldable pub decimal : ℕ → Bytes
unfolding decimal_from
decimal n = decimal_from 20 n []

unfoldable pub parse_digits : ℕ → Bytes → Result ℕ
parse_digits n [] = ok n
parse_digits n (c ∷ s) =
    let rest = parse_digits (n * 10 + (c - 48)) s in
    if leb 48 c && leb c 57
    then if ltb (n * 10 + (c - 48)) (2 ^ 64) then rest else err (fault (str "value out of range"))
    else err (fault (str "invalid syntax"))

unfoldable pub parse_uint : Bytes → Result ℕ
unfolding parse_digits
parse_uint [] = err (fault (str "invalid syntax"))
parse_uint (c ∷ s) = parse_digits 0 (c ∷ s)

digit_value : (m d : ℕ) → d < 10 → m * 10 + (48 + d - 48) ≡ m * 10 + d
digit_value m d h = omega arith

parse_digits-cons :
    (m d : ℕ) (acc : Bytes)
    → d < 10
    → m * 10 + d < 2 ^ 64
    → parse_digits m ((48 + d) ∷ acc) ≡ parse_digits (m * 10 + d) acc
unfolding parse_digits
parse_digits-cons m d acc h k = ground (arith, digit_value m d)

pub tenth : (f n : ℕ) → n < 10 ^ suc f → n / 10 < 10 ^ f
tenth f n h = let e : 10 ^ suc f ≡ 10 ^ f * 10 = pow-suc 10 f in omega (arith, e)

-- The digits in front of `acc` are read as the number, if it is in range.
parse-decimal_from :
    (f n : ℕ) (acc : Bytes)
    → n < 10 ^ f
    → n < 2 ^ 64
    → parse_digits 0 (decimal_from f n acc) ≡ parse_digits n acc
unfolding decimal_from
parse-decimal_from zero n acc h k = let e : n ≡ 0 = omega arith in rw e
parse-decimal_from (suc f) n acc h k = elim (Bool-cases (ltb n 10)) [
  | inl small ↦ rw small (
      parse_digits-cons 0 (n % 10) acc (omega arith) (omega arith)
      ∙ ap (λ m. parse_digits m acc) (ground arith))
  | inr large ↦ rw large (
      parse-decimal_from f (n / 10) ((48 + n % 10) ∷ acc) (tenth f n h) (omega arith)
      ∙ parse_digits-cons (n / 10) (n % 10) acc (omega arith) (omega arith)
      ∙ ap (λ m. parse_digits m acc) (omega arith))
]

decimal_from-cons :
    (f n c : ℕ) (acc : Bytes)
    → parse_uint (decimal_from f n (c ∷ acc)) ≡ parse_digits 0 (decimal_from f n (c ∷ acc))
unfolding decimal_from parse_uint
decimal_from-cons zero n c acc = refl
decimal_from-cons (suc f) n c acc =
    ground (arith, decimal_from-cons f (n / 10) (48 + n % 10) (c ∷ acc))

decimal-parse_digits : (n : ℕ) → parse_uint (decimal n) ≡ parse_digits 0 (decimal n)
unfolding decimal decimal_from parse_uint
decimal-parse_digits n = ground (arith, decimal_from-cons 19 (n / 10) (48 + n % 10) [])

pub parse_uint-decimal : (n : ℕ) → n < 2 ^ 64 → parse_uint (decimal n) ≡ ok n
unfolding decimal parse_digits
parse_uint-decimal n h = decimal-parse_digits n ∙ parse-decimal_from 20 n [] (omega arith) h
