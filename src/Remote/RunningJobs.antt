-- ===== src/Remote/RunningJobs.antt =====
-- What an agent sends when a job ends reaches the command that waits for the job, once.
use meeseeks_box.Base.{
  ℕ, ◌≡◌, refl, ap, List, [], ◌∷◌, ◌++◌, none, some, eqb, eqb_refl, if◌then◌else◌, arith, ok, err,
  Error, errorf, wrapf,
}
use meeseeks_box.Base.Decimal.{decimal}
use meeseeks_box.Remote.{
  FinishedJob, Pipeline, channel_of, without, start_job, pop_job, deliver, finish_job,
}

pub channel_of-without :
    (id j : ℕ) (m : List (ℕ × ℕ))
    → channel_of j (without id m) ≡ (if eqb id j then none else channel_of j m)
unfolding channel_of without
channel_of-without id j [] = ground arith
channel_of-without id j ((k, c) ∷ m) = ground (arith, channel_of-without id j m)

pop_job-found :
    (id c : ℕ) (p : Pipeline)
    → channel_of id p.running_jobs ≡ some c
    → pop_job id p ≡ (ok c, record p { running_jobs = without id p.running_jobs })
unfolding pop_job
pop_job-found id c p h = rw (h, pop_job) refl

pop_job-missing :
    (id : ℕ) (p : Pipeline)
    → channel_of id p.running_jobs ≡ none
    → (e : Error) × (pop_job id p ≡ (err e, p))
unfolding pop_job
pop_job-missing id p h = (
  errorf "could not find job with ID %d in the running jobs list" (decimal id ∷ []),
  rw (h, pop_job) refl,
)

started :
    (id : ℕ) (p : Pipeline) → channel_of id (start_job id p).1.running_jobs ≡ some p.next_channel
unfolding start_job channel_of
started id p = rw (eqb_refl id) refl

pub finish-found :
    (f : FinishedJob) (c : ℕ) (p : Pipeline)
    → channel_of f.job_id p.running_jobs ≡ some c
    → finish_job f p ≡ deliver f (ok c, record p { running_jobs = without f.job_id p.running_jobs })
unfolding finish_job
finish-found f c p h = ap (deliver f) (pop_job-found f.job_id c p h)

finish-missing :
    (f : FinishedJob) (p : Pipeline)
    → channel_of f.job_id p.running_jobs ≡ none
    → (e : Error) × (finish_job f p ≡ (err e, p))
unfolding finish_job
finish-missing f p h =
    let (e, missing) = pop_job-missing f.job_id p h in
    (wrapf "could not fetch command finish channel: %s" [] e, ap (deliver f) missing)

-- The end of a job that was started is sent on the channel that its start made, and nothing else
-- is; a second end of the job is an error that sends nothing and changes nothing.
pub finish-start_job :
    (f : FinishedJob) (p : Pipeline)
    → ((finish_job f (start_job f.job_id p).1).0 ≡ ok tt)
      × ((finish_job f (start_job f.job_id p).1).1.sent
          ≡ p.sent ++ ((start_job f.job_id p).0, f) ∷ [])
      × ((g : FinishedJob)
          → g.job_id ≡ f.job_id
          → (e : Error) × (finish_job g (finish_job f (start_job f.job_id p).1).1
              ≡ (err e, (finish_job f (start_job f.job_id p).1).1)))
finish-start_job f p =
    let q = (start_job f.job_id p).1 in
    let done = finish-found f p.next_channel q (started f.job_id p) in
    let channel : (start_job f.job_id p).0 ≡ p.next_channel = unfold start_job in refl in
    let before : q.sent ≡ p.sent = unfold start_job in refl in
    (
      ap (λ r. r.0) done,
      rw (channel, done, before) refl,
      λ g same. finish-missing g (finish_job f q).1 (
          rw (done, same, channel_of-without f.job_id f.job_id q.running_jobs, eqb_refl f.job_id)
            refl),
    )
