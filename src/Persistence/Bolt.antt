-- ===== src/Persistence/Bolt.antt =====
-- What the stores use of bbolt, which is a package outside the repository: buckets of key/value
-- pairs. Every call that bbolt lets fail returns a `Result`, and the laws are its documentation:
-- a cursor walks a bucket's keys in byte order.
pub mod Memory
use meeseeks_box.Base.{
  ℕ, ◌+◌, ◌%◌, ◌^◌, ◌≡◌, refl, Bool, true, false, List, [], ◌∷◌, Option, none, some, Bytes, ◌==◌,
  eq_iff, eq_refl, ltb, eqb, if◌then◌else◌, arith, Result, ok, err, All, ◌&&◌, ◌||◌, ◌≢◌,
}
use meeseeks_box.Base.Assoc.{Assoc, lookup}

-- bytes.Compare(a, b) < 0
unfoldable pub bytes_lt : Bytes → Bytes → Bool
bytes_lt [] [] = false
bytes_lt [] (y ∷ ys) = true
bytes_lt (x ∷ xs) [] = false
bytes_lt (x ∷ xs) (y ∷ ys) = ltb x y || (eqb x y && bytes_lt xs ys)

module _ {V : Type 0} where
  -- The pairs of a bucket behind a Put and behind a Delete.
  unfoldable pub put_pair : Bytes → V → Assoc V → Assoc V
  put_pair k v [] = (k, v) ∷ []
  put_pair k v ((j, w) ∷ m) =
      if j == k
      then (k, v) ∷ m
      else if bytes_lt k j
      then (k, v) ∷ (j, w) ∷ m
      else (j, w) ∷ put_pair k v m

  unfoldable pub delete_pair : Bytes → Assoc V → Assoc V
  delete_pair k [] = []
  delete_pair k ((j, w) ∷ m) = let rest = delete_pair k m in if j == k then rest else (j, w) ∷ rest

  abbrev pub Ascending : Assoc V → Type 0
  Ascending [] = Unit
  Ascending ((k, v) ∷ m) = All (λ e. bytes_lt k e.0 ≡ true) m × Ascending m

  pub lookup-put_pair :
      (k j : Bytes) (v : V) (m : Assoc V)
      → lookup j (put_pair k v m) ≡ (if k == j then some v else lookup j m)
  unfolding lookup put_pair
  lookup-put_pair k j v [] = refl
  lookup-put_pair k j v ((i, w) ∷ m) =
      ground (arith, lookup-put_pair k j v m, eq_iff i k, eq_iff i j, eq_iff k j)

  pub lookup-delete_pair :
      (k j : Bytes) (m : Assoc V)
      → lookup j (delete_pair k m) ≡ (if k == j then none else lookup j m)
  unfolding lookup delete_pair
  lookup-delete_pair k j [] = ground arith
  lookup-delete_pair k j ((i, w) ∷ m) =
      ground (arith, lookup-delete_pair k j m, eq_iff i k, eq_iff i j, eq_iff k j)

module _ {V : Type 0} (P : Bytes × V → Type 0) where
  pub All-put_pair : (k : Bytes) (v : V) (m : Assoc V) → P (k, v) → All P m → All P (put_pair k v m)
  unfolding put_pair
  All-put_pair k v [] p h = (p, tt)
  All-put_pair k v ((j, w) ∷ m) p (q, h) = ground (arith, All-put_pair k v m p h)

  pub All-delete_pair : (k : Bytes) (m : Assoc V) → All P m → All P (delete_pair k m)
  unfolding delete_pair
  All-delete_pair k [] h = tt
  All-delete_pair k ((j, w) ∷ m) (q, h) = ground (arith, All-delete_pair k m h)

pub record Bolt (V : Type 0) : Type 1 where
  pub Bucket : Type 0
  pub create_bucket : Bytes → Result Bucket
  pub get : Bytes → Bucket → Option V
  pub put : Bytes → V → Bucket → Result Bucket
  pub delete : Bytes → Bucket → Result Bucket
  pub next_sequence : Bucket → Result (ℕ × Bucket)
  pub cursor : Bucket → Assoc V
  pub sequence : Bucket → ℕ

pub record BoltLaws {V : Type 0} (b : Bolt V) : Type 0 where
  pub cursor-create_bucket :
      (name : Bytes) (t : b.Bucket) → b.create_bucket name ≡ ok t → b.cursor t ≡ []
  pub sequence-create_bucket :
      (name : Bytes) (t : b.Bucket) → b.create_bucket name ≡ ok t → b.sequence t ≡ 0
  pub cursor_ascending : (t : b.Bucket) → Ascending (b.cursor t)
  pub get-cursor : (k : Bytes) (t : b.Bucket) → b.get k t ≡ lookup k (b.cursor t)
  pub cursor-put :
      (k : Bytes) (v : V) (t u : b.Bucket)
      → b.put k v t ≡ ok u
      → b.cursor u ≡ put_pair k v (b.cursor t)
  pub sequence-put :
      (k : Bytes) (v : V) (t u : b.Bucket) → b.put k v t ≡ ok u → b.sequence u ≡ b.sequence t
  pub cursor-delete :
      (k : Bytes) (t u : b.Bucket) → b.delete k t ≡ ok u → b.cursor u ≡ delete_pair k (b.cursor t)
  pub sequence-delete :
      (k : Bytes) (t u : b.Bucket) → b.delete k t ≡ ok u → b.sequence u ≡ b.sequence t
  pub cursor-next_sequence :
      (t u : b.Bucket) (n : ℕ) → b.next_sequence t ≡ ok (n, u) → b.cursor u ≡ b.cursor t
  pub next_sequence-eq :
      (t u : b.Bucket) (n : ℕ)
      → b.next_sequence t ≡ ok (n, u)
      → (n ≡ (b.sequence t + 1) % 2 ^ 64) × (b.sequence u ≡ n)

-- `CreateBucketIfNotExists` of a bucket that is there or not
unfoldable pub create_if_missing :
    {V : Type 0} (b : Bolt V) → Bytes → Option b.Bucket → Result b.Bucket
create_if_missing b name none = b.create_bucket name
create_if_missing b name (some t) = ok t

-- What json.Marshal writes of a value, and json.Unmarshal reads.
pub record Codec (A P : Type 0) : Type 0 where
  pub marshal : A → Result P
  pub unmarshal : P → Result A

-- Unmarshal reads back what Marshal wrote.
abbrev pub IsFaithful : {A P : Type 0} → Codec A P → Type 0
IsFaithful {A} {P} c = (a : A) (p : P) → c.marshal a ≡ ok p → c.unmarshal p ≡ ok a
