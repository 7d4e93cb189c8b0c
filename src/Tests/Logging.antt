-- ===== src/Tests/Logging.antt =====
-- The logs of a job in memory (persistence/logs/local/logs.go).
use meeseeks_box.Base.{◌≡◌, refl, ◌==◌, [], ◌∷◌, Bytes, str, none, some, ok, join}
use meeseeks_box.Base.Assoc.{lookup}
use meeseeks_box.Persistence.Bolt.{Bolt, bytes_lt}
use meeseeks_box.Persistence.Bolt.Memory.{Table, memory}
use meeseeks_box.Persistence.Db.{id_to_bytes}
use meeseeks_box.Persistence.Logs.{JobBucket, LogsDb, get, tail, error_text, error_key}
use meeseeks_box.Persistence.Logs.Reading.{Holds, lines_of, tail_error}

abbrev b : Bolt Bytes
b = memory Bytes

abbrev table : Table Bytes
table = record { pairs = (id_to_bytes 1, str "one") ∷ []; last = 1; ascending = (tt, tt) }

abbrev quiet : JobBucket b b (ok tt)
quiet = record { lines = table; error = none }

abbrev db : LogsDb b b (ok tt)
db = some ((id_to_bytes 3, quiet) ∷ [])

quiet-held : Holds b b (ok tt) 3 db quiet
unfolding lookup ◌==◌ id_to_bytes
quiet-held = refl

abbrev errors : Table Bytes
errors = record { pairs = (error_key, str "killed") ∷ []; last = 0; ascending = (tt, tt) }

abbrev failed : JobBucket b b (ok tt)
failed = record { lines = table; error = some errors }

abbrev failed_db : LogsDb b b (ok tt)
failed_db = some ((id_to_bytes 3, failed) ∷ [])

failed-held : Holds b b (ok tt) 3 failed_db failed
unfolding lookup ◌==◌ id_to_bytes
failed-held = refl

tail_error_example :
    (get b b (ok tt) 3 (some failed_db)
      ≡ ok (record {
        output = join (10 ∷ []) (lines_of b b (ok tt) failed);
        error = error_text b b (ok tt) (some errors);
      }))
    × (tail b b (ok tt) 3 2 (some failed_db)
        ≡ ok (record { output = []; error = error_text b b (ok tt) (some errors) }))
tail_error_example =
    tail_error b b (ok tt) 3 2 failed_db failed errors failed-held refl
      (unfold id_to_bytes bytes_lt in (refl, tt))
