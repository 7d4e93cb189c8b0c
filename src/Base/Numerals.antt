-- ===== src/Base/Numerals.antt =====
-- A decimal text is what strconv.ParseInt reads.
use meeseeks_box.Base.{
  ℕ, zero, suc, ◌+◌, ◌-◌, ◌*◌, ◌/◌, ◌%◌, ◌^◌, ◌<◌, ◌≤◌, ◌≡◌, refl, ◌&&◌, true, false, [], ◌∷◌,
  Bytes, ltb, leb, eqb, arith, ok, Bool-cases, some, inl, inr, ◌⊎◌,
}
use meeseeks_box.Base.Decimal.{
  decimal, decimal_from, parse_digits, parse_uint, parse_uint-decimal, tenth,
}
use meeseeks_box.Base.Integers.{
  value, digit_of, digit_below, number_from, parse_unsigned, parse_int,
}

digit_of-digit : (c : ℕ) → leb 48 c && leb c 57 ≡ true → digit_below 10 (digit_of c) ≡ some (c - 48)
unfolding digit_of
digit_of-digit c h = ground arith

number_from-digits : (m n : ℕ) (s : Bytes) → parse_digits m s ≡ ok n → number_from 10 m s ≡ value n
unfolding number_from parse_digits
number_from-digits m n [] h = cc h
number_from-digits m n (c ∷ s) h = elim (Bool-cases (leb 48 c && leb c 57)) [
  | inr other ↦ cc (rw other at h)
  | inl digit ↦ elim (Bool-cases (ltb (m * 10 + (c - 48)) (2 ^ 64))) [
    | inr large ↦ cc (rw (digit, large) at h)
    | inl fits ↦
        rw (digit_of-digit c digit, fits, number_from)
          (number_from-digits (m * 10 + (c - 48)) n s (rw (digit, fits) at h))
  ]
]

-- No other digit than that of zero stands first.
decimal_from-head :
    (f n : ℕ) (acc : Bytes)
    → 0 < n
    → n < 10 ^ f
    → (c : ℕ) × (s : Bytes) × (decimal_from f n acc ≡ c ∷ s) × (49 ≤ c) × (c ≤ 57)
unfolding decimal_from
decimal_from-head zero n acc h k = absurd (omega arith)
decimal_from-head (suc f) n acc h k = elim (Bool-cases (ltb n 10)) [
  | inl small ↦ rw small (48 + n % 10, acc, refl, ground arith, omega arith)
  | inr large ↦
      rw large (decimal_from-head f (n / 10) ((48 + n % 10) ∷ acc) (ground arith) (tenth f n k))
]

decimal-cases :
    (n : ℕ)
    → n < 2 ^ 64
    → (n ≡ 0) ⊎ ((c : ℕ) × (s : Bytes) × (decimal n ≡ c ∷ s) × (49 ≤ c) × (c ≤ 57))
unfolding decimal
decimal-cases zero h = inl refl
decimal-cases (suc n) h = inr (decimal_from-head 20 (suc n) [] (omega arith) (omega arith))

decimal-zero : decimal 0 ≡ 48 ∷ []
unfolding decimal decimal_from
decimal-zero = refl

pub decimal-head :
    (n : ℕ) → n < 2 ^ 64 → (c : ℕ) × (s : Bytes) × (decimal n ≡ c ∷ s) × (48 ≤ c) × (c ≤ 57)
decimal-head n h = elim (decimal-cases n h) [
  | inl e ↦ (48, [], rw e decimal-zero, omega arith, omega arith)
  | inr (c, s, e, lo, hi) ↦ (c, s, e, omega arith, hi)
]

parse_unsigned-digits :
    (c n : ℕ) (s : Bytes) → 49 ≤ c → parse_uint (c ∷ s) ≡ ok n → parse_unsigned (c ∷ s) ≡ value n
unfolding parse_unsigned parse_uint
parse_unsigned-digits c n [] l h =
    let other : eqb c 48 ≡ false = ground arith in rw other (number_from-digits 0 n (c ∷ []) h)
parse_unsigned-digits c n (d ∷ s) l h =
    let other : eqb c 48 ≡ false = ground arith in rw other (number_from-digits 0 n (c ∷ d ∷ s) h)

pub parse_int-decimal : (n : ℕ) → n < 2 ^ 63 → parse_int (decimal n) ≡ (n, ok tt)
unfolding parse_int parse_unsigned
parse_int-decimal n h = elim (decimal-cases n (omega arith)) [
  | inl e ↦ rw (e, decimal-zero) refl
  | inr (c, s, e, lo, hi) ↦
      let read : parse_uint (c ∷ s) ≡ ok n = rw e at (parse_uint-decimal n (omega arith)) in
      let plus : eqb c 43 ≡ false = ground arith in
      let minus : eqb c 45 ≡ false = ground arith in
      let fits : ltb n (2 ^ 63) ≡ true = ground arith in
      rw (e, plus, minus, parse_unsigned-digits c n s lo read, fits) refl
]
