-- ===== src/Tests/Delivering.antt =====
-- A shell command that an agent runs: its last line arrives first, another is lost, and one is still
-- on its way (remote/agent/remote_logger.go).
use meeseeks_box.Base.{ℕ, [], ◌∷◌, Bytes, str, Option, none, some, ok}
use meeseeks_box.Persistence.Logs.{LogsDb}
use meeseeks_box.Shell.Recorded.{local_writer}
use meeseeks_box.Agent.Logs.{Link, Flight, append_entry, entry, timed_out, Delivery}
use meeseeks_box.Tests.Recording.{job}
use meeseeks_box.Tests.Recorded.{b, show}

abbrev links : ℕ → Bytes → Link
links id line = record { acquire = ok tt; send = ok tt }

abbrev left : Flight × Option (LogsDb b b (ok tt))
left = (
  (job.id, []) ∷ [],
  append_entry (local_writer b b (ok tt) show) timed_out
      (append_entry (local_writer b b (ok tt) show) (entry job.id (str "two")) (some none)),
)
