-- ===== src/Base/Trim.antt =====
-- strings.TrimSpace over bytes: white space is that of `unicode.IsSpace`, in UTF-8.
use meeseeks_box.Base.{
  ℕ, zero, suc, ◌≡◌, refl, Bool, false, ◌&&◌, ◌||◌, Option, none, some, [], ◌∷◌, ◌++◌, reverse,
  Bytes, leb, eqb, length, if◌then◌else◌, arith, ◌<◌, ap, ◌∙◌, All, Option-cases, inl, inr,
}
use mathlib.Core.List.{reverse-append, reverse-reverse, reverse_aux}

unfoldable pub is_space : ℕ → Bool
is_space c = (leb 9 c && leb c 13) || eqb c 32

is_space_pair : ℕ → ℕ → Bool
is_space_pair a b = eqb a 0xc2 && (eqb b 0x85 || eqb b 0xa0)

is_space_triple : ℕ → ℕ → ℕ → Bool
is_space_triple a b c =
    (eqb a 0xe1 && eqb b 0x9a && eqb c 0x80)
    || (eqb a 0xe2
        && eqb b 0x80
        && ((leb 0x80 c && leb c 0x8a) || eqb c 0xa8 || eqb c 0xa9 || eqb c 0xaf))
    || (eqb a 0xe2 && eqb b 0x81 && eqb c 0x9f)
    || (eqb a 0xe3 && eqb b 0x80 && eqb c 0x80)

-- The bytes behind a white space rune that the text starts with.
strip_front_triple : ℕ → ℕ → Bytes → Option Bytes
strip_front_triple a b [] = none
strip_front_triple a b (c ∷ s) = if is_space_triple a b c then some s else none

strip_front_pair : ℕ → Bytes → Option Bytes
strip_front_pair a [] = none
strip_front_pair a (b ∷ s) = if is_space_pair a b then some s else strip_front_triple a b s

strip_front : Bytes → Option Bytes
unfolding strip_front_pair strip_front_triple is_space is_space_pair is_space_triple
strip_front [] = none
strip_front (a ∷ s) = if is_space a then some s else strip_front_pair a s

-- The same on a reversed text, for a rune that the text ends with.
strip_back_triple : ℕ → ℕ → Bytes → Option Bytes
strip_back_triple c b [] = none
strip_back_triple c b (a ∷ s) = if is_space_triple a b c then some s else none

strip_back_pair : ℕ → Bytes → Option Bytes
strip_back_pair c [] = none
strip_back_pair c (b ∷ s) = if is_space_pair b c then some s else strip_back_triple c b s

strip_back : Bytes → Option Bytes
unfolding strip_back_pair strip_back_triple is_space is_space_pair is_space_triple
strip_back [] = none
strip_back (c ∷ s) = if is_space c then some s else strip_back_pair c s

-- As many rounds as the text has bytes are enough: each takes a byte away or stops.
trim_with : (Bytes → Option Bytes) → ℕ → Bytes → Bytes
trim_with strip zero s = s
trim_with strip (suc n) s = elim (strip s) [ none ↦ s | some r ↦ trim_with strip n r ]

unfoldable pub trim_space : Bytes → Bytes
unfolding trim_with strip_front strip_back
trim_space s =
    let t = trim_with strip_front (length s) s in
    reverse (trim_with strip_back (length t) (reverse t))

-- A byte that neither is white space nor can be part of a longer white space rune.
abbrev pub IsSolid : ℕ → Type 0
IsSolid c = (c < 128) × (is_space c ≡ false)

strip_front-solid : (c : ℕ) (s : Bytes) → IsSolid c → strip_front (c ∷ s) ≡ none
unfolding strip_front_pair strip_front_triple is_space_pair is_space_triple strip_front
strip_front-solid c [] h = ground arith
strip_front-solid c (b ∷ []) h = ground arith
strip_front-solid c (b ∷ d ∷ s) h = ground arith

strip_back-solid : (c : ℕ) (s : Bytes) → IsSolid c → strip_back (c ∷ s) ≡ none
unfolding strip_back_pair strip_back_triple is_space_pair is_space_triple strip_back
strip_back-solid c [] h = ground arith
strip_back-solid c (b ∷ []) h = ground arith
strip_back-solid c (b ∷ d ∷ s) h = ground arith

trim_with-none :
    (strip : Bytes → Option Bytes) (n : ℕ) (s : Bytes) → strip s ≡ none → trim_with strip n s ≡ s
unfolding trim_with
trim_with-none strip zero s h = refl
trim_with-none strip (suc n) s h = ground arith

trim_front-solid :
    (s : Bytes) (c : ℕ) (r : Bytes) → s ≡ c ∷ r → IsSolid c → trim_with strip_front (length s) s ≡ s
trim_front-solid s c r e h =
    trim_with-none strip_front (length s) s (rw e (strip_front-solid c r h))

trim_back-solid :
    (s : Bytes) (n : ℕ) (init : Bytes) (d : ℕ)
    → s ≡ init ++ d ∷ []
    → IsSolid d
    → reverse (trim_with strip_back n (reverse s)) ≡ s
trim_back-solid s n init d e h =
    ap reverse (
      trim_with-none strip_back n (reverse s)
        (rw (e, reverse-append) (strip_back-solid d (reverse init) h)))
    ∙ reverse-reverse s

-- A text whose first and last bytes are solid is not trimmed.
pub trim_space-solid :
    (s : Bytes) (c : ℕ) (r : Bytes) (init : Bytes) (d : ℕ)
    → s ≡ c ∷ r
    → IsSolid c
    → s ≡ init ++ d ∷ []
    → IsSolid d
    → trim_space s ≡ s
unfolding trim_space
trim_space-solid s c r init d e h e' h' =
    rw (trim_front-solid s c r e h) (trim_back-solid s (length s) init d e' h')

pub trim_space-nil : trim_space [] ≡ []
unfolding trim_space
trim_space-nil = refl

-- What is left of a text has only bytes of the text.
module _ {ℓ} (P : ℕ → Type ℓ) where
  trim_with-All :
      (strip : Bytes → Option Bytes)
      → ((s r : Bytes) → strip s ≡ some r → All P s → All P r)
      → (n : ℕ) (s : Bytes) → All P s
      → All P (trim_with strip n s)
  unfolding trim_with
  trim_with-All strip keep zero s h = h
  trim_with-All strip keep (suc n) s h = elim (Option-cases (strip s)) [
    | inl e ↦ rw (e, trim_with) h
    | inr (r, e) ↦ rw (e, trim_with) (trim_with-All strip keep n r (keep s r e h))
  ]

  All-reverse_aux : (xs ys : Bytes) → All P xs → All P ys → All P (reverse_aux xs ys)
  All-reverse_aux [] ys h k = k
  All-reverse_aux (x ∷ xs) ys (p, h) k = All-reverse_aux xs (x ∷ ys) h (p, k)

  strip_front-All : (s r : Bytes) → strip_front s ≡ some r → All P s → All P r
  unfolding strip_front strip_front_pair strip_front_triple
  strip_front-All [] r e h = cc
  strip_front-All (a ∷ []) r e h = ground arith
  strip_front-All (a ∷ b ∷ []) r e h = ground arith
  strip_front-All (a ∷ b ∷ c ∷ s) r e h = ground arith

  strip_back-All : (s r : Bytes) → strip_back s ≡ some r → All P s → All P r
  unfolding strip_back strip_back_pair strip_back_triple
  strip_back-All [] r e h = cc
  strip_back-All (a ∷ []) r e h = ground arith
  strip_back-All (a ∷ b ∷ []) r e h = ground arith
  strip_back-All (a ∷ b ∷ c ∷ s) r e h = ground arith

  pub trim_space-All : (s : Bytes) → All P s → All P (trim_space s)
  unfolding trim_space
  trim_space-All s h =
      let t = trim_with strip_front (length s) s in
      let ht = trim_with-All strip_front strip_front-All (length s) s h in
      All-reverse_aux _ []
        (trim_with-All strip_back strip_back-All (length t) (reverse t)
          (All-reverse_aux t [] ht tt))
        tt
