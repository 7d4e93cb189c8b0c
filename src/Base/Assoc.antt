-- ===== src/Base/Assoc.antt =====
-- A Go map with string keys, as an association list: `m[k]`, `m[k] = v`, `delete(m, k)`.
-- The program's answers do not depend on the order of a map's entries.
use mathlib.Core.Path.{◌≡◌, subst}
use mathlib.Core.Option.{Option, none, some}
use mathlib.Core.List.{List, [], ◌∷◌}
use mathlib.Core.Logic.{inl, inr}
use native.Mathlib.Omega.{arith}
use meeseeks_box.Base.Lists.{All}
use meeseeks_box.Base.Tests.{if◌then◌else◌}
use meeseeks_box.Base.Strings.{Bytes, ◌==◌, eq_iff, eq_refl, eq-cases}

abbrev pub Assoc {ℓ} : Type ℓ → Type ℓ
Assoc V = List (Bytes × V)

module _ {ℓ} {V : Type ℓ} where
  unfoldable pub lookup : Bytes → Assoc V → Option V
  lookup k [] = none
  lookup k ((j, v) ∷ m) = if j == k then some v else lookup k m

  unfoldable pub remove : Bytes → Assoc V → Assoc V
  remove k [] = []
  remove k ((j, v) ∷ m) = let rest = remove k m in if j == k then rest else (j, v) ∷ rest

  unfoldable pub insert : Bytes → V → Assoc V → Assoc V
  unfolding remove
  insert k v m = (k, v) ∷ remove k m

  pub lookup-remove :
      (k j : Bytes) (m : Assoc V) → lookup j (remove k m) ≡ (if k == j then none else lookup j m)
  unfolding lookup remove
  lookup-remove k j [] = ground arith
  lookup-remove k j ((i, v) ∷ m) =
      ground (arith, lookup-remove k j m, eq_iff i k, eq_iff i j, eq_iff k j)

  pub lookup-insert :
      (k j : Bytes) (v : V) (m : Assoc V)
      → lookup j (insert k v m) ≡ (if k == j then some v else lookup j m)
  unfolding lookup insert
  lookup-insert k j v m = simp lookup-remove (ground arith)

  -- A map has a key once.
  abbrev pub Distinct : Assoc V → Type ℓ
  Distinct [] = Unit
  Distinct ((k, v) ∷ m) = (lookup k m ≡ none) × Distinct m

  pub Distinct-remove : (k : Bytes) (m : Assoc V) → Distinct m → Distinct (remove k m)
  unfolding remove
  Distinct-remove k [] h = tt
  Distinct-remove k ((j, v) ∷ m) (h, hs) =
      ground (arith, lookup-remove k j m, Distinct-remove k m hs)

  pub Distinct-insert : (k : Bytes) (v : V) (m : Assoc V) → Distinct m → Distinct (insert k v m)
  unfolding insert
  Distinct-insert k v m h = (rw (lookup-remove, eq_refl), Distinct-remove k m h)

module _ {ℓ κ} {V : Type ℓ} (P : Bytes × V → Type κ) where
  pub All-lookup : (m : Assoc V) (k : Bytes) (v : V) → All P m → lookup k m ≡ some v → P (k, v)
  unfolding lookup
  All-lookup [] k v h e = cc
  All-lookup ((j, w) ∷ m) k v (p, h) e = elim (eq-cases j k) [
    | inl same ↦
        let value : w ≡ v = ground (arith, (eq_iff j k).1 same) in
        subst (λ q. P (q, v)) same (subst (λ u. P (j, u)) value p)
    | inr other ↦ All-lookup m k v h (rw other at e)
  ]
