-- ===== src/Persistence/Jobs.antt =====
-- persistence/jobs/jobs.go: the recorded jobs, in a bucket by ID, and the IDs of the running
-- ones in another. Each function takes what it reads from the clock.
pub mod Views
pub mod Invariant
pub mod Lifecycle
pub mod Search
pub mod Recovery
use meeseeks_box.Base.{
  ℕ, Bool, true, false, ◌||◌, not, List, [], ◌∷◌, ◌++◌, map, reverse, Option, none, some, Bytes,
  str, ◌==◌, ltb, if◌then◌else◌, length, Result, ok, err, errorf, wrapf, fault, no_job_with_id,
  or_wrap, ◌>>=◌,
}
use meeseeks_box.Base.Decimal.{decimal}
use meeseeks_box.Model.{
  Request, Job, JobFilter, job_running_status, job_failed_status, job_killed_status,
  job_success_status,
}
use meeseeks_box.Persistence.Bolt.{Bolt, Codec, create_if_missing}
use meeseeks_box.Persistence.Db.{id_to_bytes, id_from_bytes, update, view}

abbrev pub jobs_bucket_key : Bytes
jobs_bucket_key = str "jobs"

abbrev pub running_jobs_bucket_key : Bytes
running_jobs_bucket_key = str "running-jobs"

-- The two buckets of the database, each there or not.
pub record JobsDb {P : Type 0} (jb : Bolt P) (rb : Bolt Bytes) : Type 0 where
  pub jobs : Option jb.Bucket
  pub running : Option rb.Bucket

unfoldable pub null_job : ℕ → Request → Job
null_job now req = record {
  id = 0;
  request = req;
  start_time = now;
  end_time = 0;
  status = job_running_status;
}

-- the literal in `create`
abbrev pub new_job : ℕ → ℕ → Request → Job
new_job now id req = record {
  id = id;
  request = req;
  start_time = now;
  end_time = 0;
  status = job_running_status;
}

-- a method of a nil *bolt.Bucket
abbrev pub not_nil {ℓ} : {A : Type ℓ} → Option A → Result A
not_nil none = err (fault (str "nil pointer dereference"))
not_nil (some a) = ok a

module _ {P : Type 0} (jb : Bolt P) (rb : Bolt Bytes) (codec : Codec Job P) where
  unfoldable pub save : Job → jb.Bucket → Result jb.Bucket
  save job bucket = do buffer ← codec.marshal job; jb.put (id_to_bytes job.id) buffer bucket

  unfoldable pub create_tx : ℕ → Request → JobsDb jb rb → Result (Job × JobsDb jb rb)
  unfolding save
  create_tx now req db = do
    next ←
        or_wrap "could not get next sequence for %s: %s" (jobs_bucket_key ∷ [])
          (create_if_missing jb jobs_bucket_key db.jobs >>= jb.next_sequence)
    running ←
        or_wrap "could not create running jobs bucket: %s" []
          (create_if_missing rb running_jobs_bucket_key db.running)
    running' ←
        or_wrap "could not save running job ID %d: %s" (decimal next.0 ∷ [])
          (rb.put (id_to_bytes next.0) job_running_status running)
    bucket ← save (new_job now next.0 req) next.1
    ok (new_job now next.0 req, record { jobs = some bucket; running = some running' })

  unfoldable pub create : ℕ → Request → Option (JobsDb jb rb) → Result Job × Option (JobsDb jb rb)
  unfolding create_tx update
  create now req s =
      let (r, s') = update (create_tx now req) s in (or_wrap "failed to create a job %s" [] r, s')

  abbrev pub payload_of : ℕ → Option jb.Bucket → Option P
  payload_of id none = none
  payload_of id (some bucket) = jb.get (id_to_bytes id) bucket

  abbrev pub job_of : Option P → Result Job
  job_of none = err no_job_with_id
  job_of (some payload) = codec.unmarshal payload

  unfoldable pub get_tx : ℕ → JobsDb jb rb → Result Job
  get_tx id db = job_of (payload_of id db.jobs)

  unfoldable pub get : ℕ → Option (JobsDb jb rb) → Result Job
  unfolding get_tx view
  get id s = view (get_tx id) s

  abbrev pub is_end_status : Bytes → Bool
  is_end_status status = status == job_success_status || status == job_failed_status

  -- `get` in the transaction reads the committed state, which nothing has changed yet.
  unfoldable pub finish_tx : ℕ → ℕ → Bytes → JobsDb jb rb → Result (Unit {0} × JobsDb jb rb)
  unfolding save
  finish_tx now id status db = do
    job ← or_wrap "could not get job with id %d: %s" (decimal id ∷ []) (get_tx id db)
    if not (job.status == job_running_status)
        then err (errorf "job is not in running status but %s" (job.status ∷ []))
        else do
          running ← not_nil db.running
          running' ←
              or_wrap "could not remove job %d from running list: %s" (decimal id ∷ [])
                (rb.delete (id_to_bytes id) running)
          bucket ← not_nil db.jobs
          bucket' ← save (record job { end_time = now; status = status }) bucket
          ok (tt, record { jobs = some bucket'; running = some running' })

  unfoldable pub finish :
      ℕ → ℕ → Bytes → Option (JobsDb jb rb) → Result (Unit {0}) × Option (JobsDb jb rb)
  unfolding finish_tx update
  finish now id status s =
      if not (is_end_status status)
      then (err (errorf "invalid status %s" (status ∷ [])), s)
      else update (finish_tx now id status) s

  unfoldable pub fail : ℕ → ℕ → Option (JobsDb jb rb) → Result (Unit {0}) × Option (JobsDb jb rb)
  unfolding finish
  fail now id s = finish now id job_failed_status s

  unfoldable pub succeed : ℕ → ℕ → Option (JobsDb jb rb) → Result (Unit {0}) × Option (JobsDb jb rb)
  unfolding finish
  succeed now id s = finish now id job_success_status s

  -- the loop of `find` over the payloads from the last to the first
  unfoldable pub find_loop : JobFilter → List P → List Job → Result (List Job)
  find_loop filter [] latest = ok latest
  find_loop filter (payload ∷ rest) latest =
      if ltb (length latest) filter.limit
      then (do
        job ← or_wrap "failed to load Job payload %s" [] (codec.unmarshal payload)
        find_loop filter rest (if filter.match job then latest ++ job ∷ [] else latest))
      else ok latest

  abbrev pub payloads : Option jb.Bucket → List P
  payloads none = []
  payloads (some bucket) = map (λ e. e.1) (jb.cursor bucket)

  unfoldable pub find_tx : JobFilter → JobsDb jb rb → Result (List Job)
  unfolding find_loop
  find_tx filter db = find_loop filter (reverse (payloads db.jobs)) []

  unfoldable pub find : JobFilter → Option (JobsDb jb rb) → Result (List Job)
  unfolding find_tx view
  find filter s = view (find_tx filter) s

  -- Unmarshal of nil is an error.
  abbrev pub unmarshal_found : Option P → Result Job
  unmarshal_found none = err (fault (str "unexpected end of JSON input"))
  unmarshal_found (some payload) = codec.unmarshal payload

  -- the loop of `failRunningJobs` over the keys that the cursor gives, each with the time that
  -- is read for it
  unfoldable pub fail_loop :
      List (Bytes × ℕ) → jb.Bucket → rb.Bucket → Result (Unit {0} × JobsDb jb rb)
  unfolding save
  fail_loop [] jobs running = ok (tt, record { jobs = some jobs; running = some running })
  fail_loop ((key, now) ∷ rest) jobs running = do
    job ←
        or_wrap "could not read job %d from bucket: %s" (decimal (id_from_bytes key) ∷ [])
          (unmarshal_found (jb.get key jobs))
    jobs' ←
        or_wrap "could not save killed job %d: %s" (decimal (id_from_bytes key) ∷ [])
          (save (record job { status = job_killed_status; end_time = now }) jobs)
    running' ←
        or_wrap "could not delete running job %d: %s" (decimal (id_from_bytes key) ∷ [])
          (rb.delete key running)
    fail_loop rest jobs' running'

  abbrev pub fail_buckets :
      List (Bytes × ℕ)
      → JobsDb jb rb
      → Option rb.Bucket
      → Option jb.Bucket
      → Result (Unit {0} × JobsDb jb rb)
  fail_buckets visited db none jobs = ok (tt, db)
  fail_buckets visited db (some running) none = ok (tt, db)
  fail_buckets visited db (some running) (some jobs) = fail_loop visited jobs running

  unfoldable pub fail_running_jobs :
      List (Bytes × ℕ) → Option (JobsDb jb rb) → Result (Unit {0}) × Option (JobsDb jb rb)
  unfolding fail_loop update
  fail_running_jobs visited s = update (λ db. fail_buckets visited db db.running db.jobs) s
