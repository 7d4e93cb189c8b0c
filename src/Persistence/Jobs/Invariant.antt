-- ===== src/Persistence/Jobs/Invariant.antt =====
-- The invariant of the jobs store: the bucket of running jobs holds exactly the IDs of the jobs
-- whose status is running, every payload is that of the job of its key, and no ID above the last
-- one given is in use.
use meeseeks_box.Base.{
  ℕ, ◌+◌, ◌^◌, ◌<◌, ◌≡◌, refl, sym, ◌∙◌, ap, Bool, true, false, Option, none, some, Bytes, ◌==◌,
  eq_iff, eq_refl, arith, Result, ok, err, All, eqb, Bool-cases, Result-cases, inl, inr, eqb→eq,
  ◌||◌,
}
use meeseeks_box.Base.Assoc.{Assoc, lookup, All-lookup}
use meeseeks_box.Model.{Request, Job, job_running_status, job_success_status, job_failed_status}
use meeseeks_box.Persistence.Bolt.{
  Bolt, BoltLaws, Codec, IsFaithful, put_pair, delete_pair, lookup-put_pair, lookup-delete_pair,
  All-put_pair,
}
use meeseeks_box.Persistence.Db.{id_to_bytes, id_to_bytes-eq_iff, update-ok, update-err}
use meeseeks_box.Persistence.Jobs.{
  JobsDb, new_job, create_tx, create, get_tx, job_of, finish_tx, finish,
}
use meeseeks_box.Persistence.Jobs.Views.{
  jobs_view, running_view, last_id, get_tx-eq, IsCreated-view, create_tx-IsCreated, IsFinished-view,
  finish_tx-IsFinished,
}

abbrev pub is_some {ℓ} : {A : Type ℓ} → Option A → Bool
is_some none = false
is_some (some _) = true

abbrev pub has_running_status : Result Job → Bool
has_running_status (ok job) = job.status == job_running_status
has_running_status (err _) = false

le_ne : (a b : ℕ) → a < b → eqb a b ≡ false
le_ne a b h = ground arith

module _ {P : Type 0} (jb : Bolt P) (rb : Bolt Bytes) (codec : Codec Job P) (jl : BoltLaws jb)
    (rl : BoltLaws rb) where
  abbrev pub IsKeyed : Bytes × P → Type 0
  IsKeyed e =
      (job : Job) × (codec.unmarshal e.1 ≡ ok job) × (e.0 ≡ id_to_bytes job.id) × (job.id < 2 ^ 64)

  pub record IsConsistent (db : JobsDb jb rb) : Type 0 where
    pub keyed : All IsKeyed (jobs_view jb rb codec jl rl db)
    pub tracked :
        (k : Bytes)
        → is_some (lookup k (running_view jb rb codec jl rl db))
          ≡ has_running_status (job_of jb rb codec (lookup k (jobs_view jb rb codec jl rl db)))
    pub fresh :
        (id : ℕ)
        → last_id jb rb codec jl rl db < id
        → id < 2 ^ 64
        → lookup (id_to_bytes id) (jobs_view jb rb codec jl rl db) ≡ none
    pub in_range : last_id jb rb codec jl rl db < 2 ^ 64

  module _ (faithful : IsFaithful codec) where
    created_tracked :
        (k key : Bytes) (payload : P) (job : Job) (jobs : Assoc P) (running : Assoc Bytes)
        → codec.unmarshal payload ≡ ok job
        → job.status == job_running_status ≡ true
        → is_some (lookup k running) ≡ has_running_status (job_of jb rb codec (lookup k jobs))
        → is_some (lookup k (put_pair key job_running_status running))
          ≡ has_running_status (job_of jb rb codec (lookup k (put_pair key payload jobs)))
    created_tracked k key payload job jobs running u s h =
        rw (lookup-put_pair, lookup-put_pair) (ground arith)

    pub create_tx-IsConsistent :
        (now : ℕ) (req : Request) (db : JobsDb jb rb) (job : Job) (db' : JobsDb jb rb)
        → last_id jb rb codec jl rl db + 1 < 2 ^ 64
        → IsConsistent db
        → create_tx jb rb codec now req db ≡ ok (job, db')
        → IsConsistent db'
    create_tx-IsConsistent now req db job db' room c h =
        let (id, new, steps) = create_tx-IsCreated jb rb codec now req db job db' h in
        let v = IsCreated-view jb rb codec jl rl now req db id db' steps in
        let read = faithful (new_job now id req) steps.payload steps.marshals in
        record {
          keyed = rw v.jobs (
              All-put_pair IsKeyed (id_to_bytes id) steps.payload (jobs_view jb rb codec jl rl db)
                (new_job now id req, read, refl, omega (arith, v.id_eq)) c.keyed);
          tracked = λ k.
              rw (v.jobs, v.running)
                (created_tracked k (id_to_bytes id) steps.payload (new_job now id req) _ _ read
                  (eq_refl job_running_status) (c.tracked k));
          fresh = λ n above small.
              let id_small : id < 2 ^ 64 = omega (arith, v.id_eq) in
              let old : last_id jb rb codec jl rl db < n = omega (arith, v.id_eq, v.last) in
              rw (v.jobs, lookup-put_pair, id_to_bytes-eq_iff id n id_small small)
                (rw (le_ne id n (omega (arith, v.last))) (c.fresh n old small));
          in_range = omega (arith, v.last, v.id_eq);
        }

    pub finished_tracked :
        (k key : Bytes) (payload : P) (job : Job) (jobs : Assoc P) (running : Assoc Bytes)
        → codec.unmarshal payload ≡ ok job
        → job.status == job_running_status ≡ false
        → is_some (lookup k running) ≡ has_running_status (job_of jb rb codec (lookup k jobs))
        → is_some (lookup k (delete_pair key running))
          ≡ has_running_status (job_of jb rb codec (lookup k (put_pair key payload jobs)))
    finished_tracked k key payload job jobs running u s h =
        rw (lookup-put_pair, lookup-delete_pair) (ground arith)

    -- A job's ID is the number that it was found under.
    pub found_id :
        (id : ℕ) (db : JobsDb jb rb) (job : Job)
        → id < 2 ^ 64
        → IsConsistent db
        → get_tx jb rb codec id db ≡ ok job
        → job.id ≡ id
    found_id id db job small c found =
        go (lookup (id_to_bytes id) (jobs_view jb rb codec jl rl db)) refl
          (sym (get_tx-eq jb rb codec jl rl id db) ∙ found)
      where
        go :
            (o : Option P)
            → lookup (id_to_bytes id) (jobs_view jb rb codec jl rl db) ≡ o
            → job_of jb rb codec o ≡ ok job
            → job.id ≡ id
        go none e f = cc
        go (some payload) e f =
            let (same, read, key, j_small) =
              All-lookup IsKeyed (jobs_view jb rb codec jl rl db) (id_to_bytes id) payload c.keyed
                e in
            let there : same ≡ job = cc in
            eqb→eq job.id id (
              sym (id_to_bytes-eq_iff job.id id (rw there at j_small) small)
              ∙ (eq_iff (id_to_bytes job.id) (id_to_bytes id)).1
                  (ap (λ (j : Job). id_to_bytes j.id) (sym there) ∙ sym key))

    found_ne_fresh :
        (id n : ℕ) (db : JobsDb jb rb) (job : Job)
        → IsConsistent db
        → get_tx jb rb codec id db ≡ ok job
        → last_id jb rb codec jl rl db < n
        → n < 2 ^ 64
        → eqb id n ≡ false
    found_ne_fresh id n db job c found above n_small = elim (Bool-cases (eqb id n)) [
      | inr other ↦ other
      | inl same ↦
          cc (eqb→eq id n same, found, get_tx-eq jb rb codec jl rl id db, c.fresh n above n_small)
    ]

    end_ne_running :
        (status : Bytes)
        → (status == job_success_status || status == job_failed_status) ≡ true
        → status == job_running_status ≡ false
    end_ne_running status h = ground (
      arith,
      eq_iff status job_success_status,
      eq_iff status job_failed_status,
      eq_iff status job_running_status,
    )

    pub finish_tx-IsConsistent :
        (now id : ℕ) (status : Bytes) (db : JobsDb jb rb) (u : Unit {0}) (db' : JobsDb jb rb)
        → id < 2 ^ 64
        → status == job_running_status ≡ false
        → IsConsistent db
        → finish_tx jb rb codec now id status db ≡ ok (u, db')
        → IsConsistent db'
    finish_tx-IsConsistent now id status db u db' small ended c h =
        let steps = finish_tx-IsFinished jb rb codec now id status db u db' h in
        let v = IsFinished-view jb rb codec jl rl now id status db db' steps in
        let read =
          faithful (record steps.job { end_time = now; status = status }) steps.payload
            steps.marshals in
        let same = found_id id db steps.job small c steps.found in
        record {
          keyed = rw v.jobs (
              All-put_pair IsKeyed (id_to_bytes steps.job.id) steps.payload
                (jobs_view jb rb codec jl rl db)
                (
                  record steps.job { end_time = now; status = status },
                  read,
                  refl,
                  omega (arith, same),
                )
                c.keyed);
          tracked = λ k.
              rw (v.jobs, v.running, same)
                (finished_tracked k (id_to_bytes id) steps.payload
                  (record steps.job { end_time = now; status = status }) _ _ read ended
                  (c.tracked k));
          fresh = λ n above n_small.
              let old : last_id jb rb codec jl rl db < n = omega (arith, v.last) in
              rw
                (
                  v.jobs,
                  same,
                  lookup-put_pair,
                  id_to_bytes-eq_iff id n small n_small,
                  found_ne_fresh id n db steps.job c steps.found old n_small,
                )
                (c.fresh n old n_small);
          in_range = omega (arith, v.last, c.in_range);
        }

    -- A `create`, whether or not it succeeds, leaves a consistent store consistent, as long as IDs
    -- are left.
    pub create-IsConsistent :
        (now : ℕ) (req : Request) (db : JobsDb jb rb)
        → last_id jb rb codec jl rl db + 1 < 2 ^ 64
        → IsConsistent db
        → (db' : JobsDb jb rb) × ((create jb rb codec now req (some db)).1 ≡ some db')
          × IsConsistent db'
    unfolding create
    create-IsConsistent now req db room c = elim (Result-cases (create_tx jb rb codec now req db)) [
      | inl ((job, db'), e) ↦ (
        db',
        ap (λ r. r.1) (update-ok (create_tx jb rb codec now req) db job db' e),
        create_tx-IsConsistent now req db job db' room c e,
      )
      | inr (f, e) ↦ (db, ap (λ r. r.1) (update-err (create_tx jb rb codec now req) db f e), c)
    ]

    -- A `finish`, whatever the status asked for and whether or not it succeeds, leaves a consistent
    -- store consistent.
    pub finish-IsConsistent :
        (now id : ℕ) (status : Bytes) (db : JobsDb jb rb)
        → id < 2 ^ 64
        → IsConsistent db
        → (db' : JobsDb jb rb) × ((finish jb rb codec now id status (some db)).1 ≡ some db')
          × IsConsistent db'
    unfolding finish
    finish-IsConsistent now id status db small c =
        elim (Bool-cases (status == job_success_status || status == job_failed_status)) [
          | inr invalid ↦ (db, rw invalid, c)
          | inl valid ↦ elim (Result-cases (finish_tx jb rb codec now id status db)) [
            | inl ((u, db'), e) ↦ (
              db',
              rw valid (ap (λ r. r.1) (update-ok (finish_tx jb rb codec now id status) db u db' e)),
              finish_tx-IsConsistent now id status db u db' small (end_ne_running status valid) c e,
            )
            | inr (f, e) ↦ (
              db,
              rw valid (ap (λ r. r.1) (update-err (finish_tx jb rb codec now id status) db f e)),
              c,
            )
          ]
        ]
