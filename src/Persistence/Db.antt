-- ===== src/Persistence/Db.antt =====
-- persistence/db/db.go: transactions on the open database, and the keys of numbered records.
use meeseeks_box.Base.{
  ℕ, ◌+◌, ◌*◌, ◌/◌, ◌%◌, ◌^◌, ◌<◌, ◌≡◌, refl, true, [], ◌∷◌, Option, none, some, Bytes, ◌==◌,
  eq_iff, eqb, arith, Result, ok, err, errorf, Error, ap, sym, ◌∙◌, inl, inr, eq-cases, Bool-cases,
  eqb→eq, All, length, ◌⊎◌,
}
use meeseeks_box.Persistence.Bolt.{bytes_lt}

-- IDToBytes: the eight bytes of a uint64, the highest first
unfoldable pub id_to_bytes : ℕ → Bytes
id_to_bytes id =
    (id / 2 ^ 56 % 256)
    ∷ (id / 2 ^ 48 % 256)
    ∷ (id / 2 ^ 40 % 256)
    ∷ (id / 2 ^ 32 % 256)
    ∷ (id / 2 ^ 24 % 256)
    ∷ (id / 2 ^ 16 % 256)
    ∷ (id / 2 ^ 8 % 256)
    ∷ (id % 256)
    ∷ []

from_bytes : ℕ → Bytes → ℕ
from_bytes acc [] = acc
from_bytes acc (b ∷ bs) = from_bytes (acc * 256 + b) bs

-- IDFromBytes
unfoldable pub id_from_bytes : Bytes → ℕ
unfolding from_bytes
id_from_bytes bs = from_bytes 0 bs

-- An ID of 64 bits is read back from its key.
pub id_from_bytes-id_to_bytes : (id : ℕ) → id < 2 ^ 64 → id_from_bytes (id_to_bytes id) ≡ id
unfolding id_from_bytes id_to_bytes
id_from_bytes-id_to_bytes id h = omega arith

module _ {ℓ} {S A : Type ℓ} where
  -- WithDB refuses a database that was not opened, `none`. Update: the new state is kept if the function returns no error, and dropped if it does.
  unfoldable pub update : (S → Result (A × S)) → Option S → Result A × Option S
  update f none = (err (errorf "database is not initialized" []), none)
  update f (some s) = elim (f s) [ ok (a, s') ↦ (ok a, some s') | err e ↦ (err e, some s) ]

  -- View
  unfoldable pub view : (S → Result A) → Option S → Result A
  view f none = err (errorf "database is not initialized" [])
  view f (some s) = f s

pub id_to_bytes-eq_iff :
    (a b : ℕ) → a < 2 ^ 64 → b < 2 ^ 64 → id_to_bytes a == id_to_bytes b ≡ eqb a b
id_to_bytes-eq_iff a b h k = elim (eq-cases (id_to_bytes a) (id_to_bytes b)) [
  | inl e ↦ rw ((eq_iff (id_to_bytes a) (id_to_bytes b)).1 e) (
      let same : a ≡ b =
        sym (id_from_bytes-id_to_bytes a h) ∙ ap id_from_bytes e ∙ id_from_bytes-id_to_bytes b k in
      ground arith)
  | inr n ↦ rw n (elim (Bool-cases (eqb a b)) [
    | inr m ↦ sym m
    | inl m ↦ cc (n, (eq_iff (id_to_bytes a) (id_to_bytes b)).1 (ap id_to_bytes (eqb→eq a b m)))
  ])
]

id_bytes : (id : ℕ) → All (λ x. x < 256) (id_to_bytes id)
unfolding id_to_bytes
id_bytes id = omega arith

from_less :
    (a b : ℕ) → a < b → b < 2 ^ 64 → from_bytes 0 (id_to_bytes a) < from_bytes 0 (id_to_bytes b)
unfolding id_from_bytes
from_less a b h k =
    omega (arith, id_from_bytes-id_to_bytes a (omega arith), id_from_bytes-id_to_bytes b k)

from_bytes-lt :
    (a b : ℕ) (xs ys : Bytes)
    → length xs ≡ length ys
    → All (λ x. x < 256) xs
    → All (λ y. y < 256) ys
    → from_bytes a xs < from_bytes b ys
    → (a < b) ⊎ ((a ≡ b) × (bytes_lt xs ys ≡ true))
unfolding from_bytes bytes_lt
from_bytes-lt a b [] [] e h k lt = inl lt
from_bytes-lt a b [] (y ∷ ys) e h k lt = absurd (omega arith)
from_bytes-lt a b (x ∷ xs) [] e h k lt = absurd (omega arith)
from_bytes-lt a b (x ∷ xs) (y ∷ ys) e (p, h) (q, k) lt =
    elim (from_bytes-lt (a * 256 + x) (b * 256 + y) xs ys (omega arith) h k lt) [
      | inl less ↦ ground arith
      | inr (same, rest) ↦ ground arith
    ]

-- Of two IDs of 64 bits, the smaller one's key comes first in byte order.
pub bytes_lt-id_to_bytes :
    (a b : ℕ) → a < b → b < 2 ^ 64 → bytes_lt (id_to_bytes a) (id_to_bytes b) ≡ true
bytes_lt-id_to_bytes a b h k =
    elim (from_bytes-lt 0 0 (id_to_bytes a) (id_to_bytes b) (unfold id_to_bytes in refl)
      (id_bytes a) (id_bytes b) (from_less a b h k)) [
        | inl less ↦ absurd (omega arith)
        | inr (_, lt) ↦ lt
      ]

module _ {ℓ} {S A : Type ℓ} where
  pub update-ok :
      (f : S → Result (A × S)) (s : S) (a : A) (s' : S)
      → f s ≡ ok (a, s')
      → update f (some s) ≡ (ok a, some s')
  unfolding update
  update-ok f s a s' h = rw (h, update)

  pub update-err :
      (f : S → Result (A × S)) (s : S) (e : Error)
      → f s ≡ err e
      → update f (some s) ≡ (err e, some s)
  unfolding update
  update-err f s e h = rw (h, update)
