-- ===== src/Persistence/Logs/Reading.antt =====
-- What is read of a job's logs.
use meeseeks_box.Base.{
  ℕ, zero, suc, ◌≡◌, refl, sym, ◌∙◌, ap, true, false, List, [], ◌∷◌, ◌++◌, map, reverse, Option,
  none, some, Bytes, ◌==◌, join, take, arith, Result, ok, All,
}
use mathlib.Core.List.{reverse-cons, reverse-append, append-nil, append_assoc}
use meeseeks_box.Base.Assoc.{Assoc, lookup}
use meeseeks_box.Persistence.Bolt.{Bolt, put_pair, bytes_lt}
use meeseeks_box.Persistence.Db.{id_to_bytes, view}
use meeseeks_box.Persistence.Logs.{
  JobBucket, LogsDb, buckets, error_key, walk, until_nil, first_lines, last_lines, error_text,
  read_log_bucket, get, head, tail,
}

module _ (b : Bolt Bytes) (eb : Bolt Bytes) (top : Result (Unit {0})) where
  -- The job's bucket in the store.
  abbrev pub Holds : ℕ → LogsDb b eb top → JobBucket b eb top → Type 0
  Holds id db j = lookup (id_to_bytes id) (buckets b eb top db) ≡ some j

  abbrev pub lines_of : JobBucket b eb top → List Bytes
  lines_of j = map (λ e. e.1) (b.cursor j.lines)

  somes : List Bytes → List (Option Bytes)
  somes xs = map (λ x. some x) xs

  map-somes :
      (m : Assoc Bytes)
      → map (λ (e : Bytes × Option Bytes). e.1) (map (λ (e : Bytes × Bytes). (e.0, some e.1)) m)
        ≡ somes (map (λ (e : Bytes × Bytes). e.1) m)
  unfolding somes
  map-somes [] = refl
  map-somes ((k, v) ∷ m) = ap (λ l. some v ∷ l) (map-somes m)

  walk-lines : (j : JobBucket b eb top) → j.error ≡ none → walk b eb top j ≡ somes (lines_of j)
  unfolding walk
  walk-lines j h = rw h (map-somes (b.cursor j.lines))

  first_lines-take : (n : ℕ) (xs : List Bytes) → first_lines b eb top n (somes xs) ≡ take n xs
  unfolding first_lines somes
  first_lines-take zero xs = refl
  first_lines-take (suc n) [] = refl
  first_lines-take (suc n) (x ∷ xs) = ap (λ l. x ∷ l) (first_lines-take n xs)

  until_nil-somes : (xs : List Bytes) → until_nil b eb top (somes xs) ≡ xs
  unfolding until_nil somes
  until_nil-somes [] = refl
  until_nil-somes (x ∷ xs) = ap (λ l. x ∷ l) (until_nil-somes xs)

  last_lines-take :
      (n : ℕ) (xs : List Bytes) (acc : List Bytes)
      → last_lines b eb top n (somes xs) acc ≡ reverse (take n xs) ++ acc
  unfolding last_lines somes
  last_lines-take zero xs acc = refl
  last_lines-take (suc n) [] acc = refl
  last_lines-take (suc n) (x ∷ xs) acc =
      last_lines-take n xs (x ∷ acc)
      ∙ sym (
          ap (λ l. l ++ acc) (reverse-cons x (take n xs))
          ∙ append_assoc (reverse (take n xs)) (x ∷ []) acc)

  reverse-somes : (xs : List Bytes) → reverse (somes xs) ≡ somes (reverse xs)
  unfolding somes
  reverse-somes [] = refl
  reverse-somes (x ∷ xs) =
      reverse-cons (some x) (somes xs)
      ∙ ap (λ l. l ++ some x ∷ []) (reverse-somes xs)
      ∙ sym (ap somes (reverse-cons x xs) ∙ somes-append (reverse xs) (x ∷ []))
    where
      somes-append : (ys zs : List Bytes) → somes (ys ++ zs) ≡ somes ys ++ somes zs
      somes-append [] zs = refl
      somes-append (y ∷ ys) zs = ap (λ l. some y ∷ l) (somes-append ys zs)

  -- Of a job without an error, all the lines are read, the first ones up to the limit, or the
  -- last ones up to the limit, in the order in which they are stored.
  pub read-lines :
      (id limit : ℕ) (db : LogsDb b eb top) (j : JobBucket b eb top)
      → Holds id db j
      → j.error ≡ none
      → (get b eb top id (some db)
          ≡ ok (record { output = join (10 ∷ []) (lines_of j); error = [] }))
        × (head b eb top id limit (some db)
            ≡ ok (record { output = join (10 ∷ []) (take limit (lines_of j)); error = [] }))
        × (tail b eb top id limit (some db)
            ≡ ok (record {
              output = join (10 ∷ []) (reverse (take limit (reverse (lines_of j))));
              error = [];
            }))
  unfolding get head tail read_log_bucket view
  read-lines id limit db j held h =
      rw
        (
          held,
          walk-lines j h,
          until_nil-somes (lines_of j),
          first_lines-take limit (lines_of j),
          reverse-somes (lines_of j),
          last_lines-take limit (reverse (lines_of j)) [],
          append-nil,
          h,
        )
        (refl, refl, refl)

bytes_lt_asym : (a b : Bytes) → bytes_lt a b ≡ true → (a == b ≡ false) × (bytes_lt b a ≡ false)
unfolding bytes_lt ◌==◌
bytes_lt_asym [] [] h = cc
bytes_lt_asym [] (y ∷ b) h = (refl, refl)
bytes_lt_asym (x ∷ a) [] h = cc
bytes_lt_asym (x ∷ a) (y ∷ b) h = ground (arith, bytes_lt_asym a b)

-- A key that is behind all the others is put last.
pub put_pair-last :
    {V : Type 0} (k : Bytes) (v : V) (m : Assoc V)
    → All (λ e. bytes_lt e.0 k ≡ true) m
    → put_pair k v m ≡ m ++ (k, v) ∷ []
unfolding put_pair
put_pair-last k v [] h = refl
put_pair-last k v ((j, w) ∷ m) (less, h) =
    let (other, before) = bytes_lt_asym j k less in
    rw (other, before) (ap (λ l. (j, w) ∷ l) (put_pair-last k v m h))

module _ {A B : Type 0} (f : A → B) where
  pub map-append : (xs ys : List A) → map f (xs ++ ys) ≡ map f xs ++ map f ys
  map-append [] ys = refl
  map-append (x ∷ xs) ys = ap (λ l. f x ∷ l) (map-append xs ys)

module _ (b : Bolt Bytes) (eb : Bolt Bytes) (top : Result (Unit {0})) where
  with_somes : Assoc Bytes → Assoc (Option Bytes)
  with_somes m = map (λ (e : Bytes × Bytes). (e.0, some e.1)) m

  All-with_somes :
      (k : Bytes) (m : Assoc Bytes)
      → All (λ e. bytes_lt e.0 k ≡ true) m
      → All (λ e. bytes_lt e.0 k ≡ true) (with_somes m)
  unfolding with_somes
  All-with_somes k [] h = tt
  All-with_somes k ((j, w) ∷ m) (p, h) = (p, All-with_somes k m h)

  walk-error :
      (j : JobBucket b eb top) (bucket : eb.Bucket)
      → j.error ≡ some bucket
      → All (λ e. bytes_lt e.0 error_key ≡ true) (b.cursor j.lines)
      → walk b eb top j ≡ somes b eb top (lines_of b eb top j) ++ none ∷ []
  unfolding walk with_somes
  walk-error j bucket h less = rw h (
      ap (map (λ (e : Bytes × Option Bytes). e.1)) (
        put_pair-last error_key none (with_somes (b.cursor j.lines))
          (All-with_somes error_key (b.cursor j.lines) less))
      ∙ map-append (λ (e : Bytes × Option Bytes). e.1) (with_somes (b.cursor j.lines))
          ((error_key, none) ∷ [])
      ∙ ap (λ l. l ++ none ∷ []) (map-somes b eb top (b.cursor j.lines)))

  until_nil-append : (xs : List Bytes) → until_nil b eb top (somes b eb top xs ++ none ∷ []) ≡ xs
  unfolding until_nil somes
  until_nil-append [] = refl
  until_nil-append (x ∷ xs) = ap (λ l. x ∷ l) (until_nil-append xs)

  last_lines-none :
      (n : ℕ) (rest : List (Option Bytes)) → last_lines b eb top n (none ∷ rest) [] ≡ []
  unfolding last_lines
  last_lines-none zero rest = refl
  last_lines-none (suc n) rest = refl

  -- Once a job has an error, all the lines are read as before if the keys of the lines come before
  -- the key of the error, but its last lines are none at all: the cursor's last entry is the
  -- bucket of the error, whose value is nil.
  pub tail_error :
      (id limit : ℕ) (db : LogsDb b eb top) (j : JobBucket b eb top) (bucket : eb.Bucket)
      → Holds b eb top id db j
      → j.error ≡ some bucket
      → All (λ e. bytes_lt e.0 error_key ≡ true) (b.cursor j.lines)
      → (get b eb top id (some db)
          ≡ ok (record {
            output = join (10 ∷ []) (lines_of b eb top j);
            error = error_text b eb top (some bucket);
          }))
        × (tail b eb top id limit (some db)
            ≡ ok (record { output = []; error = error_text b eb top (some bucket) }))
  unfolding get tail read_log_bucket view join
  tail_error id limit db j bucket held h less =
      rw
        (
          held,
          walk-error j bucket h less,
          until_nil-append (lines_of b eb top j),
          reverse-append (somes b eb top (lines_of b eb top j)) (none ∷ []),
          last_lines-none limit,
          h,
        )
        (refl, refl)
