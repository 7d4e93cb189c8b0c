-- ===== src/Persistence/Bolt/Memory.antt =====
-- Buckets in memory that obey the laws of bbolt's, and a coding that obeys those of JSON's: the
-- stores run on them.
use meeseeks_box.Base.{
  ℕ, ◌+◌, ◌%◌, ◌^◌, ◌≡◌, refl, true, false, [], ◌∷◌, Bytes, ◌==◌, eq_iff, arith, ok, All,
  Bool-cases, eq-cases, inl, inr, sym, ap, ◌∙◌,
}
use meeseeks_box.Base.Assoc.{Assoc, lookup}
use meeseeks_box.Persistence.Bolt.{
  bytes_lt, put_pair, delete_pair, Ascending, All-put_pair, All-delete_pair, Bolt, BoltLaws, Codec,
  IsFaithful,
}

pub bytes_lt_trans :
    (a b c : Bytes) → bytes_lt a b ≡ true → bytes_lt b c ≡ true → bytes_lt a c ≡ true
unfolding bytes_lt
bytes_lt_trans [] [] c h k = cc
bytes_lt_trans [] (y ∷ b) [] h k = cc
bytes_lt_trans [] (y ∷ b) (z ∷ c) h k = refl
bytes_lt_trans (x ∷ a) [] c h k = cc
bytes_lt_trans (x ∷ a) (y ∷ b) [] h k = cc
bytes_lt_trans (x ∷ a) (y ∷ b) (z ∷ c) h k = ground (arith, bytes_lt_trans a b c)

bytes_lt_total : (a b : Bytes) → a == b ≡ false → bytes_lt a b ≡ false → bytes_lt b a ≡ true
unfolding bytes_lt ◌==◌
bytes_lt_total [] [] h k = cc
bytes_lt_total [] (y ∷ b) h k = cc
bytes_lt_total (x ∷ a) [] h k = refl
bytes_lt_total (x ∷ a) (y ∷ b) h k = ground (arith, bytes_lt_total a b)

module _ {V : Type 0} where
  below_trans :
      (a b : Bytes) (m : Assoc V)
      → bytes_lt a b ≡ true
      → All (λ e. bytes_lt b e.0 ≡ true) m
      → All (λ e. bytes_lt a e.0 ≡ true) m
  below_trans a b [] h k = tt
  below_trans a b ((j, w) ∷ m) h (p, k) = (bytes_lt_trans a b j h p, below_trans a b m h k)

  pub Ascending-put_pair :
      (k : Bytes) (v : V) (m : Assoc V) → Ascending m → Ascending (put_pair k v m)
  unfolding put_pair
  Ascending-put_pair k v [] h = (tt, tt)
  Ascending-put_pair k v ((j, w) ∷ m) (below, h) = elim (eq-cases j k) [
    | inl same ↦ rw ((eq_iff j k).1 same) (rw same at below, h)
    | inr other ↦ rw other (elim (Bool-cases (bytes_lt k j)) [
      | inl less ↦ rw less ((less, below_trans k j m less below), (below, h))
      | inr more ↦ rw more (
        All-put_pair (λ e. bytes_lt j e.0 ≡ true) k v m
            (bytes_lt_total k j (ground (arith, eq_iff j k, eq_iff k j)) more) below,
        Ascending-put_pair k v m h,
      )
    ])
  ]

  pub Ascending-delete_pair : (k : Bytes) (m : Assoc V) → Ascending m → Ascending (delete_pair k m)
  unfolding delete_pair
  Ascending-delete_pair k [] h = tt
  Ascending-delete_pair k ((j, w) ∷ m) (below, h) =
      ground
        (arith, Ascending-delete_pair k m h, All-delete_pair (λ e. bytes_lt j e.0 ≡ true) k m below)

pub record Table (V : Type 0) : Type 0 where
  pub pairs : Assoc V
  pub last : ℕ
  pub ascending : Ascending pairs

abbrev pub memory : (V : Type 0) → Bolt V
memory V = record {
  Bucket = Table V;
  create_bucket = λ name. ok (record { pairs = []; last = 0; ascending = tt });
  get = λ k t. lookup k t.pairs;
  put = λ k v t. ok (record t {
    pairs = put_pair k v t.pairs;
    ascending = Ascending-put_pair k v t.pairs t.ascending;
  });
  delete = λ k t. ok (record t {
    pairs = delete_pair k t.pairs;
    ascending = Ascending-delete_pair k t.pairs t.ascending;
  });
  next_sequence = λ t. let n = (t.last + 1) % 2 ^ 64 in ok (n, record t { last = n });
  cursor = λ t. t.pairs;
  sequence = λ t. t.last;
}

ok_inj : {A : Type 0} {a b : A} → ok a ≡ ok b → a ≡ b
ok_inj h = cc

pub memory-BoltLaws : (V : Type 0) → BoltLaws (memory V)
memory-BoltLaws V = record {
  cursor-create_bucket = λ name t h. ap (λ (x : Table V). x.pairs) (sym (ok_inj h));
  sequence-create_bucket = λ name t h. ap (λ (x : Table V). x.last) (sym (ok_inj h));
  cursor_ascending = λ t. t.ascending;
  get-cursor = λ k t. refl;
  cursor-put = λ k v t u h. ap (λ (x : Table V). x.pairs) (sym (ok_inj h));
  sequence-put = λ k v t u h. ap (λ (x : Table V). x.last) (sym (ok_inj h));
  cursor-delete = λ k t u h. ap (λ (x : Table V). x.pairs) (sym (ok_inj h));
  sequence-delete = λ k t u h. ap (λ (x : Table V). x.last) (sym (ok_inj h));
  cursor-next_sequence = λ t u n h. ap (λ (x : ℕ × Table V). x.1.pairs) (sym (ok_inj h));
  next_sequence-eq = λ t u n h. (
    ap (λ (x : ℕ × Table V). x.0) (sym (ok_inj h)),
    ap (λ (x : ℕ × Table V). x.1.last) (sym (ok_inj h)) ∙ ap (λ (x : ℕ × Table V). x.0) (ok_inj h),
  );
}

-- A coding that keeps the value.
abbrev pub plain : (A : Type 0) → Codec A A
plain A = record { marshal = λ a. ok a; unmarshal = λ a. ok a }

pub plain-IsFaithful : (A : Type 0) → IsFaithful (plain A)
plain-IsFaithful A a p h = sym h
