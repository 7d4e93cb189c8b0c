-- ===== src/Persistence/Jobs/Recovery.antt =====
-- What `failRunningJobs` does at a start: the jobs that the last run left running are killed.
use meeseeks_box.Base.{
  ℕ, ◌^◌, ◌<◌, ◌≡◌, refl, sym, ◌∙◌, ap, Bool, true, false, List, [], ◌∷◌, Option, none, some, Bytes,
  ◌==◌, eq_iff, eq-cases, if◌then◌else◌, arith, ok, inl, inr, ◌||◌, or_wrap-eq-ok, bind-eq-ok,
}
use meeseeks_box.Base.Assoc.{lookup, All-lookup}
use meeseeks_box.Model.{Job, job_running_status, job_killed_status}
use meeseeks_box.Persistence.Bolt.{
  Bolt, BoltLaws, Codec, IsFaithful, put_pair, delete_pair, lookup-delete_pair, lookup-put_pair,
  All-put_pair,
}
use meeseeks_box.Persistence.Db.{id_to_bytes}
use meeseeks_box.Persistence.Jobs.{
  JobsDb, get, job_of, unmarshal_found, fail_loop, fail_buckets, fail_running_jobs,
}
use meeseeks_box.Persistence.Jobs.Views.{entries, jobs_view, running_view, get_tx-eq}
use meeseeks_box.Persistence.Jobs.Invariant.{
  IsConsistent, IsKeyed, finished_tracked, is_some, has_running_status,
}
use meeseeks_box.Persistence.Jobs.Lifecycle.{update-inv}

-- Is the key one of those visited?
abbrev pub is_visited : Bytes → List (Bytes × ℕ) → Bool
is_visited k [] = false
is_visited k ((key, now) ∷ rest) = key == k || is_visited k rest

module _ {P : Type 0} (jb : Bolt P) (rb : Bolt Bytes) (codec : Codec Job P) where
  -- One turn of the loop that goes on.
  record IsKilled (key : Bytes) (now : ℕ) (jobs : jb.Bucket) (running : rb.Bucket)
      (jobs' : jb.Bucket) (running' : rb.Bucket) : Type 0 where
    payload : P
    has : jb.get key jobs ≡ some payload
    job : Job
    reads : codec.unmarshal payload ≡ ok job
    saved : P
    marshals : codec.marshal (record job { status = job_killed_status; end_time = now }) ≡ ok saved
    puts : jb.put (id_to_bytes job.id) saved jobs ≡ ok jobs'
    deletes : rb.delete key running ≡ ok running'

  unmarshal_found-eq-ok :
      (o : Option P) (job : Job)
      → unmarshal_found jb rb codec o ≡ ok job
      → (p : P) × (o ≡ some p) × (codec.unmarshal p ≡ ok job)
  unmarshal_found-eq-ok none job h = cc
  unmarshal_found-eq-ok (some p) job h = (p, refl, h)

  fail_loop-IsKilled :
      (key : Bytes) (now : ℕ) (rest : List (Bytes × ℕ)) (jobs : jb.Bucket) (running : rb.Bucket)
      (db' : JobsDb jb rb)
      → fail_loop jb rb codec ((key, now) ∷ rest) jobs running ≡ ok (tt, db')
      → (jobs' : jb.Bucket) × (running' : rb.Bucket) × IsKilled key now jobs running jobs' running'
        × (fail_loop jb rb codec rest jobs' running' ≡ ok (tt, db'))
  unfolding fail_loop
  fail_loop-IsKilled key now rest jobs running db' h =
      let (job, found, h₁) = bind-eq-ok _ _ h in
      let (jobs', stored, h₂) = bind-eq-ok _ _ h₁ in
      let (running', deletes, h₃) = bind-eq-ok _ _ h₂ in
      let (payload, has, reads) =
        unmarshal_found-eq-ok (jb.get key jobs) job (or_wrap-eq-ok _ _ _ found) in
      let (saved, marshals, puts) = bind-eq-ok _ _ (or_wrap-eq-ok _ _ _ stored) in
      (
        jobs',
        running',
        record {
          payload = payload;
          has = has;
          job = job;
          reads = reads;
          saved = saved;
          marshals = marshals;
          puts = puts;
          deletes = or_wrap-eq-ok _ _ _ deletes;
        },
        h₃,
      )

module _ {P : Type 0} (jb : Bolt P) (rb : Bolt Bytes) (codec : Codec Job P) (jl : BoltLaws jb)
    (rl : BoltLaws rb) (faithful : IsFaithful codec) where
  both : jb.Bucket → rb.Bucket → JobsDb jb rb
  both jobs running = record { jobs = some jobs; running = some running }

  killed_ne_running : job_killed_status == job_running_status ≡ false
  unfolding ◌==◌
  killed_ne_running = refl

  -- What one turn does to the keys and values.
  record IsKilledView (key : Bytes) (job : Job) (saved : P) (jobs jobs' : jb.Bucket)
      (running running' : rb.Bucket) : Type 0 where
    held : (p : P) × (lookup key (jb.cursor jobs) ≡ some p)
    key_eq : key ≡ id_to_bytes job.id
    small : job.id < 2 ^ 64
    jobs_after : jb.cursor jobs' ≡ put_pair key saved (jb.cursor jobs)
    running_after : rb.cursor running' ≡ delete_pair key (rb.cursor running)
    last_after : jb.sequence jobs' ≡ jb.sequence jobs

  IsKilled-view :
      (key : Bytes) (now : ℕ) (jobs jobs' : jb.Bucket) (running running' : rb.Bucket)
      → (k : IsKilled jb rb codec key now jobs running jobs' running')
      → IsConsistent jb rb codec jl rl (both jobs running)
      → IsKilledView key k.job k.saved jobs jobs' running running'
  unfolding both
  IsKilled-view key now jobs jobs' running running' k c =
      let held = sym (jl.get-cursor key jobs) ∙ k.has in
      let (other, read, key_eq, small) =
        All-lookup (IsKeyed jb rb codec jl rl) (jb.cursor jobs) key k.payload c.keyed held in
      let same : other ≡ k.job = cc (read, k.reads) in
      let key_eq' : key ≡ id_to_bytes k.job.id = key_eq ∙ ap (λ (j : Job). id_to_bytes j.id) same in
      record {
        held = (k.payload, held);
        key_eq = key_eq';
        small = rw same at small;
        jobs_after =
            jl.cursor-put (id_to_bytes k.job.id) k.saved jobs jobs' k.puts
            ∙ ap (λ b. put_pair b k.saved (jb.cursor jobs)) (sym key_eq');
        running_after = rl.cursor-delete key running running' k.deletes;
        last_after = jl.sequence-put (id_to_bytes k.job.id) k.saved jobs jobs' k.puts;
      }

  killed-IsConsistent :
      (key : Bytes) (now : ℕ) (jobs jobs' : jb.Bucket) (running running' : rb.Bucket)
      → IsKilled jb rb codec key now jobs running jobs' running'
      → IsConsistent jb rb codec jl rl (both jobs running)
      → IsConsistent jb rb codec jl rl (both jobs' running')
  unfolding both
  killed-IsConsistent key now jobs jobs' running running' k c =
      let v = IsKilled-view key now jobs jobs' running running' k c in
      let killed = record k.job { status = job_killed_status; end_time = now } in
      let read = faithful killed k.saved k.marshals in
      let (payload, held) = v.held in
      record {
        keyed = rw v.jobs_after (
            All-put_pair (IsKeyed jb rb codec jl rl) key k.saved (jb.cursor jobs)
              (killed, read, v.key_eq, v.small) c.keyed);
        tracked = λ j.
            rw (v.jobs_after, v.running_after)
              (finished_tracked jb rb codec jl rl faithful j key k.saved killed (jb.cursor jobs)
                (rb.cursor running) read killed_ne_running (c.tracked j));
        fresh = λ n above small.
            let old = c.fresh n (omega (arith, v.last_after)) small in
            rw (v.jobs_after, lookup-put_pair)
              (elim (eq-cases key (id_to_bytes n)) [
                | inr other ↦ rw other old
                | inl same ↦ cc (held, rw (sym same) at old)
              ]);
        in_range = omega (arith, v.last_after, c.in_range);
      }

  -- The running list loses the keys that the cursor gives, and no others.
  fail_loop-running :
      (visited : List (Bytes × ℕ)) (jobs : jb.Bucket) (running : rb.Bucket) (db' : JobsDb jb rb)
      → IsConsistent jb rb codec jl rl (both jobs running)
      → fail_loop jb rb codec visited jobs running ≡ ok (tt, db')
      → IsConsistent jb rb codec jl rl db'
        × ((k : Bytes)
            → lookup k (running_view jb rb codec jl rl db')
              ≡ (if is_visited k visited then none else lookup k (rb.cursor running)))
  unfolding both fail_loop
  fail_loop-running [] jobs running db' c h =
      let same : both jobs running ≡ db' = cc h in rw (sym same) (c, λ k. refl)
  fail_loop-running ((key, now) ∷ rest) jobs running db' c h =
      let (jobs', running', k, more) =
        fail_loop-IsKilled jb rb codec key now rest jobs running db' h in
      let v = IsKilled-view key now jobs jobs' running running' k c in
      let (c', gone) =
        fail_loop-running rest jobs' running' db'
          (killed-IsConsistent key now jobs jobs' running running' k c) more in
      (c', λ j. rw (gone j, v.running_after, lookup-delete_pair) (ground arith))

  fail_buckets-running :
      (visited : List (Bytes × ℕ)) (running : Option rb.Bucket) (jobs : Option jb.Bucket)
      (db' : JobsDb jb rb)
      → IsConsistent jb rb codec jl rl (record { jobs = jobs; running = running })
      → ((k : Bytes) → is_some (lookup k (entries rb running)) ≡ true → is_visited k visited ≡ true)
      → fail_buckets jb rb codec visited (record { jobs = jobs; running = running }) running jobs
        ≡ ok (tt, db')
      → IsConsistent jb rb codec jl rl db'
        × ((k : Bytes) → is_some (lookup k (running_view jb rb codec jl rl db')) ≡ false)
  unfolding both lookup
  fail_buckets-running visited none jobs db' c all h =
      let same : record { jobs = jobs; running = none } ≡ db' = cc h in rw (sym same) (c, λ k. refl)
  fail_buckets-running visited (some running) none db' c all h =
      let same : record { jobs = none; running = some running } ≡ db' = cc h in
      rw (sym same) (c, λ k. c.tracked k)
  fail_buckets-running visited (some running) (some jobs) db' c all h =
      let (c', gone) = fail_loop-running visited jobs running db' c h in
      (c', λ k. rw (gone k) (ground (arith, all k)))

  not_running :
      (o : Option P) (job : Job)
      → has_running_status (job_of jb rb codec o) ≡ false
      → job_of jb rb codec o ≡ ok job
      → ¬ job.status ≡ job_running_status
  not_running o job h e = λ s. cc ((eq_iff job.status job_running_status).1 s, rw e at h)

  -- If the store was consistent, the cursor gave every key of the list of running jobs and no call
  -- failed, then the store is consistent behind it and no job that can be read is running.
  pub fail_running_jobs-none_running :
      (visited : List (Bytes × ℕ)) (db : JobsDb jb rb) (s' : Option (JobsDb jb rb))
      → IsConsistent jb rb codec jl rl db
      → ((k : Bytes)
          → is_some (lookup k (running_view jb rb codec jl rl db)) ≡ true
          → is_visited k visited ≡ true)
      → fail_running_jobs jb rb codec visited (some db) ≡ (ok tt, s')
      → (db' : JobsDb jb rb) × (s' ≡ some db')
        × IsConsistent jb rb codec jl rl db'
        × ((id : ℕ) (job : Job)
            → get jb rb codec id s' ≡ ok job
            → ¬ job.status ≡ job_running_status)
  unfolding fail_running_jobs get
  fail_running_jobs-none_running visited db s' c all h =
      let (db', after, run) =
        update-inv (λ d. fail_buckets jb rb codec visited d d.running d.jobs) db tt s' h in
      let (c', gone) = fail_buckets-running visited db.running db.jobs db' c all run in
      (
        db',
        after,
        c',
        rw after (λ id job found.
            not_running (lookup (id_to_bytes id) (jobs_view jb rb codec jl rl db')) job
              (sym (c'.tracked (id_to_bytes id)) ∙ gone (id_to_bytes id))
              (sym (get_tx-eq jb rb codec jl rl id db') ∙ found)),
      )
