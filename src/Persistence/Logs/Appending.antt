-- ===== src/Persistence/Logs/Appending.antt =====
-- What `Append` leaves of a job's logs.
use meeseeks_box.Base.{
  ℕ, suc, ◌+◌, ◌^◌, ◌<◌, ◌≡◌, refl, sym, ◌∙◌, ap, true, false, [], ◌∷◌, ◌++◌, Option, some, Bytes,
  ◌==◌, arith, Result, ok, All, All-append, bind-eq-ok, or_wrap, or_wrap-eq-ok, eq_refl,
}
use meeseeks_box.Base.Assoc.{Assoc, lookup, insert, lookup-insert}
use meeseeks_box.Persistence.Bolt.{Bolt, BoltLaws, put_pair, bytes_lt}
use meeseeks_box.Persistence.Bolt.Memory.{bytes_lt_trans}
use meeseeks_box.Persistence.Db.{id_to_bytes, bytes_lt-id_to_bytes}
use meeseeks_box.Persistence.Jobs.Lifecycle.{update-inv}
use meeseeks_box.Persistence.Logs.{
  JobBucket, LogsDb, buckets, bucket_or_new, append, append_tx, get_job_bucket,
}
use meeseeks_box.Persistence.Logs.Reading.{Holds, put_pair-last}

Below-trans :
    {V : Type 0} (k l : Bytes) (m : Assoc V)
    → bytes_lt k l ≡ true
    → All (λ e. bytes_lt e.0 k ≡ true) m
    → All (λ e. bytes_lt e.0 l ≡ true) m
Below-trans k l [] h below = tt
Below-trans k l ((j, v) ∷ m) h (p, below) = (bytes_lt_trans j k l p h, Below-trans k l m h below)

module _ (b : Bolt Bytes) (eb : Bolt Bytes) (top : Result (Unit {0})) where
  -- The bucket that a line is appended to: the job's, or a new one.
  abbrev pub Opens : ℕ → LogsDb b eb top → JobBucket b eb top → Type 0
  Opens id db j = bucket_or_new b eb top id (lookup (id_to_bytes id) (buckets b eb top db)) ≡ ok j

  -- A job with sequences left for so many lines, behind those that it has.
  pub record HasRoom (id k : ℕ) (db : LogsDb b eb top) (j : JobBucket b eb top) : Type 0 where
    pub opens : Opens id db j
    pub room : b.sequence j.lines + k + 1 < 2 ^ 64
    pub below :
        All (λ e. bytes_lt e.0 (id_to_bytes (b.sequence j.lines + 1)) ≡ true) (b.cursor j.lines)

  pub Holds-Opens :
      (id : ℕ) (db : LogsDb b eb top) (j : JobBucket b eb top)
      → Holds b eb top id db j
      → Opens id db j
  Holds-Opens id db j h = rw h refl

  pub inserted :
      (k : Bytes) (j : JobBucket b eb top) (m : Assoc (JobBucket b eb top))
      → lookup k (insert k j m) ≡ some j
  inserted k j m = rw (lookup-insert, eq_refl k) refl

  -- What a line that is appended leaves.
  pub record IsAppended (id : ℕ) (content : Bytes) (j : JobBucket b eb top)
      (s' : Option (LogsDb b eb top)) : Type 0 where
    pub db : LogsDb b eb top
    pub bucket : JobBucket b eb top
    pub state : s' ≡ some db
    pub holds : Holds b eb top id db bucket
    pub sequence : b.sequence bucket.lines ≡ b.sequence j.lines + 1
    pub cursor :
        b.cursor bucket.lines
        ≡ b.cursor j.lines ++ (id_to_bytes (b.sequence j.lines + 1), content) ∷ []
    pub error : bucket.error ≡ j.error

  -- A line that is appended comes behind the lines that are there, under the next sequence.
  pub append-IsAppended :
      (id k : ℕ) (content : Bytes) (db : LogsDb b eb top) (j : JobBucket b eb top)
      (s' : Option (LogsDb b eb top))
      → BoltLaws b
      → content == [] ≡ false
      → HasRoom id (suc k) db j
      → append b eb top id content (some db) ≡ (ok tt, s')
      → IsAppended id content j s'
  unfolding append append_tx get_job_bucket
  append-IsAppended id k content db j s' laws filled has h =
      let (db', after, run) =
        update-inv (append_tx b eb top id content) db tt s' (rw filled at h) in
      let (bucket, got, h₁) = bind-eq-ok _ _ run in
      let (next, took, h₂) = bind-eq-ok _ _ h₁ in
      let (lines, puts, h₃) = bind-eq-ok _ _ h₂ in
      let (_, _, opens) =
        bind-eq-ok (or_wrap "could not get logs bucket: %s" [] top) _ (or_wrap-eq-ok _ _ _ got) in
      let same : bucket ≡ j = cc (opens, has.opens) in
      let took₁ : b.next_sequence bucket.lines ≡ ok next = or_wrap-eq-ok _ _ _ took in
      let took' : b.next_sequence j.lines ≡ ok (next.0, next.1) =
        ap (λ (x : JobBucket b eb top). b.next_sequence x.lines) (sym same) ∙ took₁ in
      let (wrapped, kept) = laws.next_sequence-eq j.lines next.1 next.0 took' in
      let number : next.0 ≡ b.sequence j.lines + 1 = omega (arith, wrapped, has.room) in
      let written : some
            (insert (id_to_bytes id) (record bucket { lines = lines }) (buckets b eb top db))
          ≡ db' =
        cc h₃ in
      record {
        db = some (insert (id_to_bytes id) (record bucket { lines = lines }) (buckets b eb top db));
        bucket = record bucket { lines = lines };
        state = after ∙ ap (λ x. some x) (sym written);
        holds = inserted (id_to_bytes id) (record bucket { lines = lines }) (buckets b eb top db);
        sequence = laws.sequence-put _ _ _ lines puts ∙ kept ∙ number;
        cursor =
            laws.cursor-put (id_to_bytes next.0) content next.1 lines puts
            ∙ ap (λ n. put_pair (id_to_bytes n) content (b.cursor next.1)) number
            ∙ ap (put_pair (id_to_bytes (b.sequence j.lines + 1)) content)
                (laws.cursor-next_sequence j.lines next.1 next.0 took')
            ∙ put_pair-last _ content (b.cursor j.lines) has.below;
        error = ap (λ (x : JobBucket b eb top). x.error) same;
      }

  pub IsAppended-HasRoom :
      (id k : ℕ) (content : Bytes) (db : LogsDb b eb top) (j : JobBucket b eb top)
      (s' : Option (LogsDb b eb top))
      → HasRoom id (suc k) db j
      → (a : IsAppended id content j s') → HasRoom id k a.db a.bucket
  IsAppended-HasRoom id k content db j s' has a =
      let next = b.sequence j.lines + 1 in
      let less : bytes_lt (id_to_bytes next) (id_to_bytes (next + 1)) ≡ true =
        bytes_lt-id_to_bytes next (next + 1) (omega arith) (omega (arith, has.room)) in
      record {
        opens = Holds-Opens id a.db a.bucket a.holds;
        room = omega (arith, a.sequence, has.room);
        below =
            rw (a.sequence, a.cursor)
              (All-append (λ e. bytes_lt e.0 (id_to_bytes (next + 1)) ≡ true) (b.cursor j.lines)
                ((id_to_bytes next, content) ∷ [])
                (Below-trans (id_to_bytes next) (id_to_bytes (next + 1)) (b.cursor j.lines) less
                  has.below)
                (less, tt));
      }
