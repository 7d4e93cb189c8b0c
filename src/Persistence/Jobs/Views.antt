-- ===== src/Persistence/Jobs/Views.antt =====
-- What the transactions of the jobs store do to the keys and values of its two buckets.
use meeseeks_box.Base.{
  ℕ, ◌+◌, ◌%◌, ◌^◌, ◌≡◌, refl, sym, ◌∙◌, ap, true, [], ◌∷◌, Option, none, some, Bytes, ◌==◌, ok,
  or_wrap, or_wrap-eq-ok, bind-eq-ok, Bool-cases, inl, inr,
}
use meeseeks_box.Base.Assoc.{Assoc, lookup}
use meeseeks_box.Base.Decimal.{decimal}
use meeseeks_box.Model.{Request, Job, job_running_status}
use meeseeks_box.Persistence.Bolt.{Bolt, BoltLaws, Codec, create_if_missing, put_pair, delete_pair}
use meeseeks_box.Persistence.Db.{id_to_bytes}
use meeseeks_box.Persistence.Jobs.{
  JobsDb, jobs_bucket_key, running_jobs_bucket_key, new_job, create_tx, get_tx, payload_of, job_of,
  finish_tx, not_nil,
}

module _ {V : Type 0} (b : Bolt V) where
  abbrev pub entries : Option b.Bucket → Assoc V
  entries none = []
  entries (some t) = b.cursor t

  abbrev pub last_sequence : Option b.Bucket → ℕ
  last_sequence none = 0
  last_sequence (some t) = b.sequence t

module _ {V : Type 0} (b : Bolt V) (l : BoltLaws b) where
  pub cursor-create_if_missing :
      (name : Bytes) (o : Option b.Bucket) (t : b.Bucket)
      → create_if_missing b name o ≡ ok t
      → (b.cursor t ≡ entries b o) × (b.sequence t ≡ last_sequence b o)
  unfolding create_if_missing
  cursor-create_if_missing name none t h =
      (l.cursor-create_bucket name t h, l.sequence-create_bucket name t h)
  cursor-create_if_missing name (some u) t h = let same : u ≡ t = cc in (rw same, rw same)

module _ {P : Type 0} (jb : Bolt P) (rb : Bolt Bytes) (codec : Codec Job P) where
  -- The steps of a `create` that succeeded and gave the job this ID.
  pub record IsCreated (now : ℕ) (req : Request) (db : JobsDb jb rb) (id : ℕ) (db' : JobsDb jb rb)
      : Type 0 where
    pub opened : jb.Bucket
    pub opens : create_if_missing jb jobs_bucket_key db.jobs ≡ ok opened
    pub taken : jb.Bucket
    pub takes : jb.next_sequence opened ≡ ok (id, taken)
    pub running : rb.Bucket
    pub runs : create_if_missing rb running_jobs_bucket_key db.running ≡ ok running
    pub running' : rb.Bucket
    pub tracks : rb.put (id_to_bytes id) job_running_status running ≡ ok running'
    pub payload : P
    pub marshals : codec.marshal (new_job now id req) ≡ ok payload
    pub bucket : jb.Bucket
    pub puts : jb.put (id_to_bytes id) payload taken ≡ ok bucket
    pub is_after : db' ≡ record { jobs = some bucket; running = some running' }

  pub create_tx-IsCreated :
      (now : ℕ) (req : Request) (db : JobsDb jb rb) (job : Job) (db' : JobsDb jb rb)
      → create_tx jb rb codec now req db ≡ ok (job, db')
      → (id : ℕ) × (job ≡ new_job now id req) × IsCreated now req db id db'
  unfolding create_tx
  create_tx-IsCreated now req db job db' h =
      let (next, took, h₁) = bind-eq-ok _ _ h in
      let (running, runs, h₂) = bind-eq-ok _ _ h₁ in
      let (running', tracks, h₃) = bind-eq-ok _ _ h₂ in
      let (bucket, saved, h₄) = bind-eq-ok _ _ h₃ in
      let (opened, opens, takes) = bind-eq-ok _ _ (or_wrap-eq-ok _ _ _ took) in
      let (payload, marshals, puts) = bind-eq-ok _ _ saved in
      (
        next.0,
        cc h₄,
        record {
          opened = opened;
          opens = opens;
          taken = next.1;
          takes = takes;
          running = running;
          runs = or_wrap-eq-ok _ _ _ runs;
          running' = running';
          tracks = or_wrap-eq-ok _ _ _ tracks;
          payload = payload;
          marshals = marshals;
          bucket = bucket;
          puts = puts;
          is_after = cc h₄;
        },
      )

  -- The steps of a `finish` that succeeded.
  pub record IsFinished (now id : ℕ) (status : Bytes) (db db' : JobsDb jb rb) : Type 0 where
    pub job : Job
    pub found : get_tx jb rb codec id db ≡ ok job
    pub was_running : job.status == job_running_status ≡ true
    pub running : rb.Bucket
    pub has_running : db.running ≡ some running
    pub running' : rb.Bucket
    pub untracks : rb.delete (id_to_bytes id) running ≡ ok running'
    pub jobs : jb.Bucket
    pub has_jobs : db.jobs ≡ some jobs
    pub payload : P
    pub marshals : codec.marshal (record job { end_time = now; status = status }) ≡ ok payload
    pub bucket : jb.Bucket
    pub puts : jb.put (id_to_bytes job.id) payload jobs ≡ ok bucket
    pub is_after : db' ≡ record { jobs = some bucket; running = some running' }

  not_nil-eq-ok : {A : Type 0} (o : Option A) (a : A) → not_nil o ≡ ok a → o ≡ some a
  not_nil-eq-ok none a h = cc
  not_nil-eq-ok (some b) a h = cc

  pub finish_tx-IsFinished :
      (now id : ℕ) (status : Bytes) (db : JobsDb jb rb) (u : Unit {0}) (db' : JobsDb jb rb)
      → finish_tx jb rb codec now id status db ≡ ok (u, db')
      → IsFinished now id status db db'
  unfolding finish_tx
  finish_tx-IsFinished now id status db u db' h =
      let (job, found, h₁) =
        bind-eq-ok
          (or_wrap "could not get job with id %d: %s" (decimal id ∷ []) (get_tx jb rb codec id db))
          _ h in
      elim (Bool-cases (job.status == job_running_status)) [
        | inr not_running ↦ cc (rw not_running at h₁)
        | inl was ↦
            let (running, has_running, h₂) = bind-eq-ok (not_nil db.running) _ (rw was at h₁) in
            let (running', untracks, h₃) = bind-eq-ok _ _ h₂ in
            let (jobs, has_jobs, h₄) = bind-eq-ok (not_nil db.jobs) _ h₃ in
            let (bucket, saved, h₅) = bind-eq-ok _ _ h₄ in
            let (payload, marshals, puts) = bind-eq-ok _ _ saved in
            record {
              job = job;
              found = or_wrap-eq-ok _ _ _ found;
              was_running = was;
              running = running;
              has_running = not_nil-eq-ok db.running running has_running;
              running' = running';
              untracks = or_wrap-eq-ok _ _ _ untracks;
              jobs = jobs;
              has_jobs = not_nil-eq-ok db.jobs jobs has_jobs;
              payload = payload;
              marshals = marshals;
              bucket = bucket;
              puts = puts;
              is_after = cc h₅;
            }
      ]

module _ {P : Type 0} (jb : Bolt P) (rb : Bolt Bytes) (codec : Codec Job P) (jl : BoltLaws jb)
    (rl : BoltLaws rb) where
  abbrev pub jobs_view : JobsDb jb rb → Assoc P
  jobs_view db = entries jb db.jobs

  abbrev pub running_view : JobsDb jb rb → Assoc Bytes
  running_view db = entries rb db.running

  abbrev pub last_id : JobsDb jb rb → ℕ
  last_id db = last_sequence jb db.jobs

  payload_of-eq :
      (id : ℕ) (o : Option jb.Bucket)
      → payload_of jb rb codec id o ≡ lookup (id_to_bytes id) (entries jb o)
  unfolding lookup
  payload_of-eq id none = refl
  payload_of-eq id (some t) = jl.get-cursor (id_to_bytes id) t

  pub get_tx-eq :
      (id : ℕ) (db : JobsDb jb rb)
      → get_tx jb rb codec id db ≡ job_of jb rb codec (lookup (id_to_bytes id) (jobs_view db))
  unfolding get_tx
  get_tx-eq id db = ap (job_of jb rb codec) (payload_of-eq id db.jobs)

  pub record IsCreatedView (id : ℕ) (payload : P) (db db' : JobsDb jb rb) : Type 0 where
    pub jobs : jobs_view db' ≡ put_pair (id_to_bytes id) payload (jobs_view db)
    pub running : running_view db' ≡ put_pair (id_to_bytes id) job_running_status (running_view db)
    pub id_eq : id ≡ (last_id db + 1) % 2 ^ 64
    pub last : last_id db' ≡ id

  pub IsCreated-view :
      (now : ℕ) (req : Request) (db : JobsDb jb rb) (id : ℕ) (db' : JobsDb jb rb)
      → (c : IsCreated jb rb codec now req db id db') → IsCreatedView id c.payload db db'
  IsCreated-view now req db id db' c =
      let (opened, seq) = cursor-create_if_missing jb jl jobs_bucket_key db.jobs c.opened c.opens in
      let (ropened, _) =
        cursor-create_if_missing rb rl running_jobs_bucket_key db.running c.running c.runs in
      let (id_eq, taken) = jl.next_sequence-eq c.opened c.taken id c.takes in
      rw c.is_after (record {
        jobs =
            jl.cursor-put (id_to_bytes id) c.payload c.taken c.bucket c.puts
            ∙ ap (put_pair (id_to_bytes id) c.payload)
                (jl.cursor-next_sequence c.opened c.taken id c.takes ∙ opened);
        running =
            rl.cursor-put (id_to_bytes id) job_running_status c.running c.running' c.tracks
            ∙ ap (put_pair (id_to_bytes id) job_running_status) ropened;
        id_eq = id_eq ∙ ap (λ n. (n + 1) % 2 ^ 64) seq;
        last = jl.sequence-put (id_to_bytes id) c.payload c.taken c.bucket c.puts ∙ taken;
      })

  pub record IsFinishedView (id : ℕ) (job : Job) (payload : P) (db db' : JobsDb jb rb)
      : Type 0 where
    pub jobs : jobs_view db' ≡ put_pair (id_to_bytes job.id) payload (jobs_view db)
    pub running : running_view db' ≡ delete_pair (id_to_bytes id) (running_view db)
    pub last : last_id db' ≡ last_id db

  pub IsFinished-view :
      (now id : ℕ) (status : Bytes) (db db' : JobsDb jb rb)
      → (c : IsFinished jb rb codec now id status db db') → IsFinishedView id c.job c.payload db db'
  IsFinished-view now id status db db' c = rw (c.is_after) (record {
    jobs =
        jl.cursor-put (id_to_bytes c.job.id) c.payload c.jobs c.bucket c.puts
        ∙ ap (λ o. put_pair (id_to_bytes c.job.id) c.payload (entries jb o)) (sym c.has_jobs);
    running =
        rl.cursor-delete (id_to_bytes id) c.running c.running' c.untracks
        ∙ ap (λ o. delete_pair (id_to_bytes id) (entries rb o)) (sym c.has_running);
    last =
        jl.sequence-put (id_to_bytes c.job.id) c.payload c.jobs c.bucket c.puts
        ∙ ap (last_sequence jb) (sym c.has_jobs);
  })
