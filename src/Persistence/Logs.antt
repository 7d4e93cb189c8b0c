-- ===== src/Persistence/Logs.antt =====
-- persistence/logs/local/logs.go: the lines that a job wrote, in a bucket of the job's, and its
-- error, in a bucket within that one.
pub mod Reading
pub mod Appending
use meeseeks_box.Base.{
  ℕ, zero, suc, Bool, List, [], ◌∷◌, ◌++◌, map, reverse, Option, none, some, Bytes, str, ◌==◌, join,
  if◌then◌else◌, Result, ok, err, no_logs_for_job, or_wrap, ◌>>=◌, ◌>>◌,
}
use meeseeks_box.Base.Assoc.{Assoc, lookup, insert}
use meeseeks_box.Base.Decimal.{decimal}
use meeseeks_box.Model.{JobLog}
use meeseeks_box.Persistence.Bolt.{Bolt, create_if_missing, put_pair}
use meeseeks_box.Persistence.Db.{id_to_bytes, update, view}

abbrev pub error_key : Bytes
error_key = str "error"

module _ (b : Bolt Bytes) (eb : Bolt Bytes) (top : Result (Unit {0})) where
  -- A job's bucket: its lines, and the bucket of its error, there or not.
  pub record JobBucket : Type 0 where
    pub lines : b.Bucket
    pub error : Option eb.Bucket

  -- The job buckets, by ID, in the bucket of the logs, there or not.
  abbrev pub LogsDb : Type 0
  LogsDb = Option (Assoc JobBucket)

  abbrev pub buckets : LogsDb → Assoc JobBucket
  buckets none = []
  buckets (some jobs) = jobs

  abbrev pub bucket_or_new : ℕ → Option JobBucket → Result JobBucket
  bucket_or_new id (some bucket) = ok bucket
  bucket_or_new id none = do
    lines ← b.create_bucket (id_to_bytes id)
    ok (record { lines = lines; error = none })

  unfoldable pub get_job_bucket : ℕ → LogsDb → Result JobBucket
  get_job_bucket id db = do
    or_wrap "could not get logs bucket: %s" [] top
    bucket_or_new id (lookup (id_to_bytes id) (buckets db))

  unfoldable pub append_tx : ℕ → Bytes → LogsDb → Result (Unit {0} × LogsDb)
  append_tx id content db = do
    bucket ← or_wrap "could not get job %d bucket: %s" (decimal id ∷ []) (get_job_bucket id db)
    next ←
        or_wrap "could not get next sequence for job %d: %s" (decimal id ∷ [])
          (b.next_sequence bucket.lines)
    lines ← b.put (id_to_bytes next.0) content next.1
    ok (tt, some (insert (id_to_bytes id) (record bucket { lines = lines }) (buckets db)))

  unfoldable pub append : ℕ → Bytes → Option LogsDb → Result (Unit {0}) × Option LogsDb
  append id content s = if content == [] then (ok tt, s) else update (append_tx id content) s

  unfoldable pub set_error_tx : ℕ → Bytes → LogsDb → Result (Unit {0} × LogsDb)
  set_error_tx id job_err db = do
    bucket ← or_wrap "could not get job %d bucket: %s" (decimal id ∷ []) (get_job_bucket id db)
    error ←
        or_wrap "could not get error bucket for job %d: %s" (decimal id ∷ [])
          (create_if_missing eb error_key bucket.error)
    error' ← eb.put error_key job_err error
    ok (tt, some (insert (id_to_bytes id) (record bucket { error = some error' }) (buckets db)))

  -- The text of the error, or nil.
  unfoldable pub set_error : ℕ → Option Bytes → Option LogsDb → Result (Unit {0}) × Option LogsDb
  set_error id job_err s = elim job_err [
    | none ↦ (ok tt, s)
    | some text ↦ update (set_error_tx id text) s
  ]

  -- A cursor over the bucket of a job walks the lines, and gives nil for the bucket within it.
  abbrev pub with_nil : Option eb.Bucket → Assoc (Option Bytes) → Assoc (Option Bytes)
  with_nil none lines = lines
  with_nil (some _) lines = put_pair error_key none lines

  unfoldable pub walk : JobBucket → List (Option Bytes)
  walk j = map (λ e. e.1) (with_nil j.error (map (λ e. (e.0, some e.1)) (b.cursor j.lines)))

  -- the loops: up to the first nil, and up to the limit
  unfoldable pub until_nil : List (Option Bytes) → List Bytes
  until_nil [] = []
  until_nil (none ∷ rest) = []
  until_nil (some line ∷ rest) = line ∷ until_nil rest

  unfoldable pub first_lines : ℕ → List (Option Bytes) → List Bytes
  first_lines zero walked = []
  first_lines (suc n) [] = []
  first_lines (suc n) (none ∷ rest) = []
  first_lines (suc n) (some line ∷ rest) = line ∷ first_lines n rest

  -- the loop of Tail, which puts each line in front
  unfoldable pub last_lines : ℕ → List (Option Bytes) → List Bytes → List Bytes
  last_lines zero walked lines = lines
  last_lines (suc n) [] lines = lines
  last_lines (suc n) (none ∷ rest) lines = lines
  last_lines (suc n) (some line ∷ rest) lines = last_lines n rest (line ∷ lines)

  abbrev pub bytes_or_nil : Option Bytes → Bytes
  bytes_or_nil none = []
  bytes_or_nil (some text) = text

  abbrev pub error_text : Option eb.Bucket → Bytes
  error_text none = []
  error_text (some bucket) = bytes_or_nil (eb.get error_key bucket)

  abbrev pub log_of : JobBucket → List Bytes → JobLog
  log_of j lines = record { output = join (10 ∷ []) lines; error = error_text j.error }

  abbrev pub found : Option JobBucket → (JobBucket → JobLog) → Result JobLog
  found none f = err no_logs_for_job
  found (some j) f = ok (f j)

  unfoldable pub read_log_bucket : ℕ → (JobBucket → JobLog) → Option LogsDb → Result JobLog
  read_log_bucket id f s = view (λ db. found (lookup (id_to_bytes id) (buckets db)) f) s

  unfoldable pub get : ℕ → Option LogsDb → Result JobLog
  get id s = read_log_bucket id (λ j. log_of j (until_nil (walk j))) s

  unfoldable pub head : ℕ → ℕ → Option LogsDb → Result JobLog
  head id limit s = read_log_bucket id (λ j. log_of j (first_lines limit (walk j))) s

  unfoldable pub tail : ℕ → ℕ → Option LogsDb → Result JobLog
  tail id limit s = read_log_bucket id (λ j. log_of j (last_lines limit (reverse (walk j)) [])) s
