-- ===== src/Base/Contains.antt =====
-- `contains` decides membership.
use meeseeks_box.Base.{
  ◌≡◌, ◌↔◌, true, List, [], ◌∷◌, Bytes, eq_refl, eq-cases, inl, inr, contains, Elem, here, there,
  arith, subst,
}

contains-to : (xs : List Bytes) (s : Bytes) → contains xs s ≡ true → Elem s xs
unfolding contains
contains-to [] s h = cc
contains-to (x ∷ xs) s h = elim (eq-cases x s) [
  | inl e ↦ subst (λ z. Elem z (x ∷ xs)) e here
  | inr n ↦ there (contains-to xs s (rw n at h))
]

contains-of : (s : Bytes) (xs : List Bytes) → Elem s xs → contains xs s ≡ true
unfolding contains
contains-of s _ (here {xs}) = ground (arith, eq_refl s)
contains-of s _ (there {x} {xs} e) = ground (arith, contains-of s xs e)

pub contains_iff : (xs : List Bytes) (s : Bytes) → (contains xs s ≡ true) ↔ Elem s xs
contains_iff xs s = (contains-to xs s, contains-of s xs)
