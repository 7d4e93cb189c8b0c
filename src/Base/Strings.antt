-- ===== src/Base/Strings.antt =====
-- Go's `string` and `[]byte`: a list of bytes. `str` gives the bytes of an ASCII literal.
use Prim.Native.Nat.{ℕ}
use Prim.Native.Char.{code}
use Prim.Native.String.{String}
use mathlib.Core.Path.{◌≡◌, refl}
use mathlib.Core.Logic.{◌↔◌, ◌⊎◌, inl, inr}
use mathlib.Core.Bool.{Bool, true, false, ◌&&◌, ◌||◌}
use mathlib.Core.List.{List, [], ◌∷◌, ◌++◌}
use native.Mathlib.Omega.{arith}
use meeseeks_box.Base.Tests.{eqb}

abbrev pub Bytes : Type 0
Bytes = List ℕ

abbrev pub str : String → Bytes
str String.[] = []
str (String.◌∷◌ c s) = code c ∷ str s

-- `a == b` on strings
infix 50 ◌==◌
unfoldable pub ◌==◌ : Bytes → Bytes → Bool
[] == [] = true
[] == (y ∷ ys) = false
(x ∷ xs) == [] = false
(x ∷ xs) == (y ∷ ys) = eqb x y && xs == ys

==-to : (a b : Bytes) → a == b ≡ true → a ≡ b
unfolding ◌==◌
==-to [] [] h = refl
==-to [] (y ∷ b) h = cc
==-to (x ∷ a) [] h = cc
==-to (x ∷ a) (y ∷ b) h = ground (arith, ==-to a b)

pub eq_refl : (a : Bytes) → a == a ≡ true
unfolding ◌==◌
eq_refl [] = refl
eq_refl (x ∷ a) = ground (arith, eq_refl a)

==-of : (a b : Bytes) → a ≡ b → a == b ≡ true
==-of a b e = rw e (eq_refl b)

pub eq_iff : (a b : Bytes) → (a == b ≡ true) ↔ (a ≡ b)
eq_iff a b = (==-to a b, ==-of a b)

-- To split on whether two strings are the same.
eq-cases_of : (a b : Bytes) (t : Bool) → a == b ≡ t → (a ≡ b) ⊎ (a == b ≡ false)
eq-cases_of a b true h = inl (==-to a b h)
eq-cases_of a b false h = inr h

pub eq-cases : (a b : Bytes) → (a ≡ b) ⊎ (a == b ≡ false)
eq-cases a b = eq-cases_of a b (a == b) refl

-- strings.HasPrefix, and the text behind the prefix
unfoldable pub has_prefix : Bytes → Bytes → Bool
has_prefix s [] = true
has_prefix [] (p ∷ ps) = false
has_prefix (c ∷ s) (p ∷ ps) = eqb c p && has_prefix s ps

-- strings.Join
unfoldable pub join : Bytes → List Bytes → Bytes
join sep [] = []
join sep (s ∷ []) = s
join sep (s ∷ t ∷ ts) = s ++ (sep ++ join sep (t ∷ ts))

-- Whether a list holds a string.
unfoldable pub contains : List Bytes → Bytes → Bool
contains [] s = false
contains (x ∷ xs) s = x == s || contains xs s
