-- ===== src/Tests/Recording.antt =====
-- A jobs store in memory (persistence/jobs/jobs.go, persistence/db/db.go).
use meeseeks_box.Base.{
  ◌≡◌, refl, ◌==◌, ◌<◌, ◌^◌, ℕ, true, false, List, [], ◌∷◌, Bytes, Option, none, some, ok, err,
  take, filter, eqb, arith, no_job_with_id, reverse, subst,
}
use meeseeks_box.Base.Assoc.{lookup}
use meeseeks_box.Model.{Job, JobFilter, job_running_status, job_success_status}
use meeseeks_box.Persistence.Bolt.{Bolt, create_if_missing, put_pair}
use meeseeks_box.Persistence.Bolt.Memory.{memory, memory-BoltLaws, plain, plain-IsFaithful}
use meeseeks_box.Persistence.Db.{id_to_bytes}
use meeseeks_box.Persistence.Jobs.{
  JobsDb, new_job, create, get, finish, find, fail_running_jobs, is_end_status, payloads,
}
use meeseeks_box.Persistence.Jobs.Views.{running_view}
use meeseeks_box.Persistence.Jobs.Invariant.{
  IsConsistent, create-IsConsistent, finish-IsConsistent, is_some,
}
use meeseeks_box.Persistence.Jobs.Lifecycle.{get-create, get-finish}
use meeseeks_box.Persistence.Jobs.Search.{Holds, find-take}
use meeseeks_box.Persistence.Jobs.Recovery.{fail_running_jobs-none_running, is_visited}
use meeseeks_box.Tests.Access.{request}

abbrev pub jb : Bolt Job
jb = memory Job

abbrev pub rb : Bolt Bytes
rb = memory Bytes

abbrev pub Db : Type 0
Db = JobsDb jb rb

abbrev empty : Db
empty = record { jobs = none; running = none }

abbrev IsGood : Db → Type 0
IsGood db = IsConsistent jb rb (plain Job) (memory-BoltLaws Job) (memory-BoltLaws Bytes) db

empty-IsGood : IsGood empty
unfolding lookup
empty-IsGood = record {
  keyed = tt;
  tracked = λ k. refl;
  fresh = λ id h k. refl;
  in_range = omega arith;
}

create-IsConsistent_example :
    (db : Db) × ((create jb rb (plain Job) 5 request (some empty)).1 ≡ some db) × IsGood db
create-IsConsistent_example =
    create-IsConsistent jb rb (plain Job) (memory-BoltLaws Job) (memory-BoltLaws Bytes)
      (plain-IsFaithful Job) 5 request empty (omega arith) empty-IsGood

abbrev pub job : Job
job = new_job 5 1 request

abbrev created : Option Db
created = (create jb rb (plain Job) 5 request (some empty)).1

created-eq : create jb rb (plain Job) 5 request (some empty) ≡ (ok job, created)
unfolding create create_if_missing put_pair
created-eq = refl

get-create_example :
    (job ≡ new_job 5 job.id request)
    × (get jb rb (plain Job) job.id (some empty) ≡ err no_job_with_id)
    × (get jb rb (plain Job) job.id created ≡ ok job)
    × ((id : ℕ)
        → id < 2 ^ 64
        → eqb job.id id ≡ false
        → get jb rb (plain Job) id created ≡ get jb rb (plain Job) id (some empty))
get-create_example =
    get-create jb rb (plain Job) (memory-BoltLaws Job) (memory-BoltLaws Bytes)
      (plain-IsFaithful Job) 5 request empty job created (omega arith) empty-IsGood created-eq

abbrev db_of : Option Db → Db
db_of none = empty
db_of (some db) = db

abbrev pub one : Db
one = db_of created

one-eq : created ≡ some one
unfolding create create_if_missing put_pair
one-eq = refl

one-IsGood : IsGood one
one-IsGood =
    let (db, e, good) =
      create-IsConsistent jb rb (plain Job) (memory-BoltLaws Job) (memory-BoltLaws Bytes)
        (plain-IsFaithful Job) 5 request empty (omega arith) empty-IsGood in
    let same : db ≡ one = cc (e, one-eq) in subst IsGood same good

finish-IsConsistent_example :
    (db : Db) × ((finish jb rb (plain Job) 9 1 job_success_status (some one)).1 ≡ some db)
    × IsGood db
finish-IsConsistent_example =
    finish-IsConsistent jb rb (plain Job) (memory-BoltLaws Job) (memory-BoltLaws Bytes)
      (plain-IsFaithful Job) 9 1 job_success_status one (omega arith) one-IsGood

abbrev finished : Option Db
finished = (finish jb rb (plain Job) 9 1 job_success_status (some one)).1

finished-eq : finish jb rb (plain Job) 9 1 job_success_status (some one) ≡ (ok tt, finished)
unfolding finish create create_if_missing ◌==◌ lookup get put_pair id_to_bytes
finished-eq = refl

get-finish_example :
    (found : Job) × (get jb rb (plain Job) 1 (some one) ≡ ok found)
    × (found.status ≡ job_running_status)
    × (is_end_status jb rb (plain Job) job_success_status ≡ true)
    × (get jb rb (plain Job) 1 finished
        ≡ ok (record found { end_time = 9; status = job_success_status }))
    × ((n : ℕ)
        → n < 2 ^ 64
        → eqb 1 n ≡ false
        → get jb rb (plain Job) n finished ≡ get jb rb (plain Job) n (some one))
get-finish_example =
    get-finish jb rb (plain Job) (memory-BoltLaws Job) (memory-BoltLaws Bytes)
      (plain-IsFaithful Job) 9 1 job_success_status one finished (omega arith) one-IsGood
      finished-eq

abbrev ended_job : Job
ended_job = record job { end_time = 9; status = job_success_status }

abbrev pub two : Db
two = db_of finished

ended_job-found : get jb rb (plain Job) 1 (some two) ≡ ok ended_job
unfolding finish create create_if_missing ◌==◌ lookup get put_pair id_to_bytes
ended_job-found = refl

abbrev pub every : JobFilter
every = record { limit = 5; match = λ j. true }

one-Holds : Holds jb rb (plain Job) (reverse (payloads jb rb (plain Job) one.jobs)) (job ∷ [])
unfolding create create_if_missing put_pair
one-Holds = (refl, tt)

find-take_example :
    find jb rb (plain Job) every (some one) ≡ ok (take 5 (filter (λ j. true) (job ∷ [])))
find-take_example = find-take jb rb (plain Job) every one (job ∷ []) one-Holds

abbrev visited : List (Bytes × ℕ)
visited = (id_to_bytes 1, 20) ∷ []

one-visited :
    (k : Bytes)
    → is_some (
        lookup k (running_view jb rb (plain Job) (memory-BoltLaws Job) (memory-BoltLaws Bytes) one))
      ≡ true
    → is_visited k visited ≡ true
unfolding lookup create create_if_missing put_pair
one-visited k h = ground (arith, h)

abbrev recovered : Option Db
recovered = (fail_running_jobs jb rb (plain Job) visited (some one)).1

recovered-eq : fail_running_jobs jb rb (plain Job) visited (some one) ≡ (ok tt, recovered)
unfolding fail_running_jobs create create_if_missing ◌==◌ lookup put_pair id_to_bytes
recovered-eq = refl

fail_running_jobs-none_running_example :
    (db : Db) × (recovered ≡ some db)
    × IsGood db
    × ((id : ℕ) (j : Job)
        → get jb rb (plain Job) id recovered ≡ ok j
        → ¬ j.status ≡ job_running_status)
fail_running_jobs-none_running_example =
    fail_running_jobs-none_running jb rb (plain Job) (memory-BoltLaws Job) (memory-BoltLaws Bytes)
      (plain-IsFaithful Job) visited one recovered one-IsGood one-visited recovered-eq
