-- ===== src/Base/Sorting.antt =====
-- Go's `a < b` on strings, which compares bytes, and sort.Strings.
use mathlib.Core.Path.{◌≡◌, refl}
use mathlib.Core.Logic.{◌⊎◌, inl, inr}
use mathlib.Core.Bool.{Bool, true, false, ◌&&◌, ◌||◌}
use mathlib.Core.List.{List, [], ◌∷◌}
use native.Mathlib.Omega.{arith}
use meeseeks_box.Base.Lists.{All}
use meeseeks_box.Base.Tests.{eqb, ltb, if◌then◌else◌, Bool-cases}
use meeseeks_box.Base.Strings.{Bytes, ◌==◌, eq_iff, contains}

unfoldable pub less : Bytes → Bytes → Bool
less [] [] = false
less [] (y ∷ ys) = true
less (x ∷ xs) [] = false
less (x ∷ xs) (y ∷ ys) = ltb x y || (eqb x y && less xs ys)

pub less_trans : (a b c : Bytes) → less a b ≡ true → less b c ≡ true → less a c ≡ true
unfolding less
less_trans [] [] c h k = cc
less_trans [] (y ∷ b) [] h k = cc
less_trans [] (y ∷ b) (z ∷ c) h k = refl
less_trans (x ∷ a) [] c h k = cc
less_trans (x ∷ a) (y ∷ b) [] h k = cc
less_trans (x ∷ a) (y ∷ b) (z ∷ c) h k = ground (arith, less_trans a b c)

pub less_total : (a b : Bytes) → less a b ≡ false → (a ≡ b) ⊎ (less b a ≡ true)
unfolding less
less_total [] [] h = inl refl
less_total [] (y ∷ b) h = cc
less_total (x ∷ a) [] h = inr refl
less_total (x ∷ a) (y ∷ b) h = ground (arith, less_total a b)

unfoldable pub sorted_insert : Bytes → List Bytes → List Bytes
sorted_insert x [] = x ∷ []
sorted_insert x (y ∷ ys) =
    let rest = sorted_insert x ys in if less y x then y ∷ rest else x ∷ y ∷ ys

-- Equal strings are the same, so that the way of sorting does not matter.
unfoldable pub sort : List Bytes → List Bytes
sort [] = []
sort (x ∷ xs) = sorted_insert x (sort xs)

abbrev pub Below : Bytes → List Bytes → Type 0
Below x = All (λ y. less x y ≡ true)

-- Each string is smaller than every one behind it.
abbrev pub Ascending : List Bytes → Type 0
Ascending [] = Unit
Ascending (x ∷ xs) = Below x xs × Ascending xs

-- No string twice.
abbrev pub Unrepeated : List Bytes → Type 0
Unrepeated [] = Unit
Unrepeated (x ∷ xs) = (contains xs x ≡ false) × Unrepeated xs

contains-sorted_insert :
    (x z : Bytes) (xs : List Bytes) → contains (sorted_insert x xs) z ≡ (x == z || contains xs z)
unfolding sorted_insert contains
contains-sorted_insert x z [] = refl
contains-sorted_insert x z (y ∷ xs) = ground (arith, contains-sorted_insert x z xs)

pub contains-sort : (z : Bytes) (xs : List Bytes) → contains (sort xs) z ≡ contains xs z
unfolding sort contains
contains-sort z [] = refl
contains-sort z (x ∷ xs) = rw (contains-sorted_insert x z (sort xs), contains-sort z xs) refl

Below-less : (x y : Bytes) (xs : List Bytes) → less x y ≡ true → Below y xs → Below x xs
Below-less x y [] l h = tt
Below-less x y (z ∷ xs) l (k, h) = (less_trans x y z l k, Below-less x y xs l h)

Below-sorted_insert :
    (z x : Bytes) (xs : List Bytes) → less z x ≡ true → Below z xs → Below z (sorted_insert x xs)
unfolding sorted_insert
Below-sorted_insert z x [] l h = (l, tt)
Below-sorted_insert z x (y ∷ xs) l (k, h) = elim (Bool-cases (less y x)) [
  | inl e ↦ rw e (k, Below-sorted_insert z x xs l h)
  | inr n ↦ rw n (l, (k, h))
]

sorted_insert-Ascending :
    (x : Bytes) (xs : List Bytes)
    → contains xs x ≡ false
    → Ascending xs
    → Ascending (sorted_insert x xs)
unfolding sorted_insert contains
sorted_insert-Ascending x [] new h = (tt, tt)
sorted_insert-Ascending x (y ∷ xs) new (b, h) = elim (Bool-cases (less y x)) [
  | inl e ↦ rw e (Below-sorted_insert y x xs e b, sorted_insert-Ascending x xs (ground arith) h)
  | inr n ↦ elim (less_total y x n) [
    | inl same ↦ cc ((eq_iff y x).1 same, new)
    | inr l ↦ rw n ((l, Below-less x y xs l b), (b, h))
  ]
]

pub sort-Ascending : (xs : List Bytes) → Unrepeated xs → Ascending (sort xs)
unfolding sort
sort-Ascending [] h = tt
sort-Ascending (x ∷ xs) (new, h) =
    sorted_insert-Ascending x (sort xs) (rw (contains-sort x xs) new) (sort-Ascending xs h)
