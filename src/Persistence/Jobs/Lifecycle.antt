-- ===== src/Persistence/Jobs/Lifecycle.antt =====
-- The life of a recorded job: created as running under an ID of its own, finished at most once.
use meeseeks_box.Base.{
  ℕ, ◌+◌, ◌^◌, ◌<◌, ◌≡◌, refl, sym, ◌∙◌, ap, true, false, [], ◌∷◌, Option, some, Bytes, eq_iff,
  if◌then◌else◌, arith, Result, ok, err, Error, errorf, eqb, Bool-cases, Result-cases, inl, inr,
  no_job_with_id, or_wrap-eq-ok,
}
use meeseeks_box.Model.{Request, Job, job_running_status}
use meeseeks_box.Persistence.Bolt.{Bolt, BoltLaws, Codec, IsFaithful, lookup-put_pair, put_pair}
use meeseeks_box.Persistence.Db.{id_to_bytes, id_to_bytes-eq_iff, update, update-ok, update-err}
use meeseeks_box.Persistence.Jobs.{
  JobsDb, new_job, create_tx, create, get_tx, get, job_of, finish_tx, finish, is_end_status,
}
use meeseeks_box.Persistence.Jobs.Views.{
  jobs_view, last_id, get_tx-eq, IsCreated-view, create_tx-IsCreated, IsFinished-view,
  finish_tx-IsFinished,
}
use meeseeks_box.Persistence.Jobs.Invariant.{IsConsistent, found_id}

module _ {ℓ} {S A : Type ℓ} where
  pub update-inv :
      (f : S → Result (A × S)) (s : S) (a : A) (o : Option S)
      → update f (some s) ≡ (ok a, o)
      → (s' : S) × (o ≡ some s') × (f s ≡ ok (a, s'))
  update-inv f s a o h = elim (Result-cases (f s)) [
    | inl ((b, s'), e) ↦
        let same = sym (update-ok f s b s' e) ∙ h in
        (s', sym (ap (λ r. r.1) same), e ∙ cc (ap (λ r. r.0) same))
    | inr (x, e) ↦ cc (ap (λ r. r.0) (sym (update-err f s x e) ∙ h))
  ]

module _ {P : Type 0} (jb : Bolt P) (rb : Bolt Bytes) (codec : Codec Job P) (jl : BoltLaws jb)
    (rl : BoltLaws rb) (faithful : IsFaithful codec) where
  get_tx-put :
      (k id : ℕ) (payload : P) (job : Job) (db db' : JobsDb jb rb)
      → k < 2 ^ 64
      → id < 2 ^ 64
      → codec.unmarshal payload ≡ ok job
      → jobs_view jb rb codec jl rl db'
        ≡ put_pair (id_to_bytes k) payload (jobs_view jb rb codec jl rl db)
      → get_tx jb rb codec id db' ≡ (if eqb k id then ok job else get_tx jb rb codec id db)
  get_tx-put k id payload job db db' ks is u e =
      rw
        (
          get_tx-eq jb rb codec jl rl id db',
          get_tx-eq jb rb codec jl rl id db,
          e,
          lookup-put_pair,
          id_to_bytes-eq_iff k id ks is,
        )
        (ground arith)

  -- In a consistent store with IDs left, a created job is running, is read back under its ID, that
  -- no job had, and no other job changes.
  pub get-create :
      (now : ℕ) (req : Request) (db : JobsDb jb rb) (job : Job) (s' : Option (JobsDb jb rb))
      → last_id jb rb codec jl rl db + 1 < 2 ^ 64
      → IsConsistent jb rb codec jl rl db
      → create jb rb codec now req (some db) ≡ (ok job, s')
      → (job ≡ new_job now job.id req)
        × (get jb rb codec job.id (some db) ≡ err no_job_with_id)
        × (get jb rb codec job.id s' ≡ ok job)
        × ((id : ℕ)
            → id < 2 ^ 64
            → eqb job.id id ≡ false
            → get jb rb codec id s' ≡ get jb rb codec id (some db))
  unfolding create get
  get-create now req db job s' room c h =
      let (db', after, run) = update-inv (create_tx jb rb codec now req) db job s' (
        ap (λ r. (r, (create jb rb codec now req (some db)).1))
          (or_wrap-eq-ok _ _ _ (ap (λ r. r.0) h))
        ∙ ap (λ o. (ok job, o)) (ap (λ r. r.1) h)) in
      let (id, new, steps) = create_tx-IsCreated jb rb codec now req db job db' run in
      let v = IsCreated-view jb rb codec jl rl now req db id db' steps in
      let small : id < 2 ^ 64 = omega (arith, v.id_eq) in
      let read = faithful (new_job now id req) steps.payload steps.marshals in
      let puts = λ (n : ℕ) (n_small : n < 2 ^ 64).
        get_tx-put id n steps.payload (new_job now id req) db db' small n_small read v.jobs in
      rw (after, new)
        (
          refl,
          get_tx-eq jb rb codec jl rl id db
              ∙ ap (job_of jb rb codec) (c.fresh id (omega (arith, v.id_eq)) small),
          puts id small ∙ ground arith,
          λ n n_small other. puts n n_small ∙ ground arith,
        )

  -- In a consistent store, a job that is finished was running, ends with the status and at the time
  -- that are asked for, and no other job changes. The status is one of the two that end a job.
  pub get-finish :
      (now id : ℕ) (status : Bytes) (db : JobsDb jb rb) (s' : Option (JobsDb jb rb))
      → id < 2 ^ 64
      → IsConsistent jb rb codec jl rl db
      → finish jb rb codec now id status (some db) ≡ (ok tt, s')
      → (job : Job) × (get jb rb codec id (some db) ≡ ok job)
        × (job.status ≡ job_running_status)
        × (is_end_status jb rb codec status ≡ true)
        × (get jb rb codec id s' ≡ ok (record job { end_time = now; status = status }))
        × ((n : ℕ)
            → n < 2 ^ 64
            → eqb id n ≡ false
            → get jb rb codec n s' ≡ get jb rb codec n (some db))
  unfolding finish get
  get-finish now id status db s' small c h = elim (Bool-cases (is_end_status jb rb codec status)) [
    | inr invalid ↦ cc (rw invalid at h)
    | inl valid ↦
        let (db', after, run) =
          update-inv (finish_tx jb rb codec now id status) db tt s' (rw valid at h) in
        let steps = finish_tx-IsFinished jb rb codec now id status db tt db' run in
        let v = IsFinished-view jb rb codec jl rl now id status db db' steps in
        let same = found_id jb rb codec jl rl faithful id db steps.job small c steps.found in
        let ended = record steps.job { end_time = now; status = status } in
        let read = faithful ended steps.payload steps.marshals in
        let puts = λ (n : ℕ) (n_small : n < 2 ^ 64).
          get_tx-put id n steps.payload ended db db' small n_small read (
            v.jobs
            ∙ ap (λ i. put_pair (id_to_bytes i) steps.payload (jobs_view jb rb codec jl rl db))
                same) in
        rw after (
          steps.job,
          steps.found,
          (eq_iff steps.job.status job_running_status).0 steps.was_running,
          valid,
          puts id small ∙ ground arith,
          λ n n_small other. puts n n_small ∙ ground arith,
        )
  ]

  -- A job that is not running is not finished again: the call is an error that changes nothing.
  pub finish_once :
      (now id : ℕ) (status : Bytes) (db : JobsDb jb rb) (job : Job)
      → get jb rb codec id (some db) ≡ ok job
      → ¬ job.status ≡ job_running_status
      → (e : Error) × (finish jb rb codec now id status (some db) ≡ (err e, some db))
  unfolding finish get
  finish_once now id status db job found other =
      elim (Bool-cases (is_end_status jb rb codec status)) [
        | inr invalid ↦ (errorf "invalid status %s" (status ∷ []), rw invalid refl)
        | inl valid ↦ elim (Result-cases (finish_tx jb rb codec now id status db)) [
          | inl ((u, db'), e) ↦
              let steps = finish_tx-IsFinished jb rb codec now id status db u db' e in
              let same : steps.job ≡ job = cc (steps.found, found) in
              absurd (
                other (
                  ap (λ (j : Job). j.status) (sym same)
                  ∙ (eq_iff steps.job.status job_running_status).0 steps.was_running))
          | inr (x, e) ↦ (x, rw valid (update-err (finish_tx jb rb codec now id status) db x e))
        ]
      ]
