-- ===== src/Tests/Recorded.antt =====
-- A shell command that is run and whose logs are read (commands/shell/shell.go).
use meeseeks_box.Base.{
  ℕ, ◌≡◌, refl, ◌==◌, [], ◌∷◌, List, Bytes, str, Option, none, some, ok, Error, join, take, reverse,
  arith, Bool-cases, Result-cases, inl, inr, length, fault,
}
use meeseeks_box.Base.Assoc.{lookup}
use meeseeks_box.Persistence.Bolt.{Bolt}
use meeseeks_box.Persistence.Bolt.Memory.{memory, memory-BoltLaws}
use meeseeks_box.Persistence.Db.{id_to_bytes, update-ok}
use meeseeks_box.Persistence.Logs.{
  JobBucket, LogsDb, buckets, bucket_or_new, append, append_tx, get_job_bucket, get, head, tail,
}
use meeseeks_box.Persistence.Logs.Appending.{HasRoom}
use meeseeks_box.Shell.{Process, scanned, context_done, execute}
use meeseeks_box.Shell.Running.{text_of, kept_lines}
use meeseeks_box.Shell.Recorded.{local_writer, AppendsAlways, execute-read}
use meeseeks_box.Tests.Access.{deploy}
use meeseeks_box.Tests.Recording.{job}

abbrev pub b : Bolt Bytes
b = memory Bytes

abbrev pub show : Error → Bytes
show e = str "failed"

opened :
    (id : ℕ) (o : Option (JobBucket b b (ok tt)))
    → (j : JobBucket b b (ok tt)) × (bucket_or_new b b (ok tt) id o ≡ ok j)
opened id none =
    (record { lines = record { pairs = []; last = 0; ascending = tt }; error = none }, refl)
opened id (some j) = (j, refl)

transaction :
    (id : ℕ) (line : Bytes) (db : LogsDb b b (ok tt)) (j : JobBucket b b (ok tt))
    → bucket_or_new b b (ok tt) id (lookup (id_to_bytes id) (buckets b b (ok tt) db)) ≡ ok j
    → (db' : LogsDb b b (ok tt)) × (append_tx b b (ok tt) id line db ≡ ok (tt, db'))
unfolding append_tx get_job_bucket
transaction id line db j e = elim (Result-cases (append_tx b b (ok tt) id line db)) [
  | inl (r, went) ↦ (r.1, went)
  | inr (x, refused) ↦ cc (rw e at refused)
]

memory-appends :
    (id : ℕ) (line : Bytes) (db : LogsDb b b (ok tt))
    → (append b b (ok tt) id line (some db)).0 ≡ ok tt
unfolding append
memory-appends id line db = elim (Bool-cases (line == [])) [
  | inl blank ↦ rw blank refl
  | inr filled ↦
      let (j, e) = opened id (lookup (id_to_bytes id) (buckets b b (ok tt) db)) in
      let (db', went) = transaction id line db j e in
      rw (filled, update-ok (append_tx b b (ok tt) id line) db tt db' went) refl
]

pub memory-AppendsAlways : AppendsAlways b b (ok tt) show
memory-AppendsAlways = record { appends = memory-appends }

abbrev printed : List Bytes
printed = str "one" ∷ [] ∷ str "two" ∷ []

abbrev pub process : Bytes → List Bytes → Process
process cmd args = record {
  stdout_pipe = ok tt;
  stderr_pipe = ok tt;
  start = ok tt;
  ending = scanned printed (ok tt);
}

abbrev pub fresh : JobBucket b b (ok tt)
fresh = record { lines = record { pairs = []; last = 0; ascending = tt }; error = none }

fresh-HasRoom : HasRoom b b (ok tt) job.id (length printed) none fresh
unfolding lookup
fresh-HasRoom = record { opens = refl; room = omega arith; below = tt }

execute-read_example :
    ((execute (local_writer b b (ok tt) show) process deploy job (some none)).0
      ≡ (text_of printed, none))
    × (get b b
          (ok tt)
          job.id
          (execute (local_writer b b (ok tt) show) process deploy job (some none)).1
        ≡ ok (record { output = join (10 ∷ []) (kept_lines printed); error = [] }))
    × (head b b
          (ok tt)
          job.id
          1
          (execute (local_writer b b (ok tt) show) process deploy job (some none)).1
        ≡ ok (record { output = join (10 ∷ []) (take 1 (kept_lines printed)); error = [] }))
    × (tail b b
          (ok tt)
          job.id
          1
          (execute (local_writer b b (ok tt) show) process deploy job (some none)).1
        ≡ ok (record {
          output = join (10 ∷ []) (reverse (take 1 (reverse (kept_lines printed))));
          error = [];
        }))
unfolding ◌==◌
execute-read_example =
    execute-read b b (ok tt) show process deploy job printed 1 none fresh (memory-BoltLaws Bytes)
      memory-AppendsAlways fresh-HasRoom refl (inr (λ e. cc e)) refl

-- A process whose context ends behind its first lines.
abbrev cut_short : Bytes → List Bytes → Process
cut_short cmd args = record {
  stdout_pipe = ok tt;
  stderr_pipe = ok tt;
  start = ok tt;
  ending =
      context_done (str "one" ∷ [] ∷ []) (fault (str "context deadline exceeded")) (str "two" ∷ []);
}
