-- ===== src/Agent/Delivery.antt =====
-- What becomes of the log of a job that an agent runs, whatever the streams of its lines do
-- (remote/agent/remote_logger.go, remote/server/log_writer.go and commands/shell/shell.go).
use meeseeks_box.Base.{ℕ, ◌≡◌, List, ◌++◌, Option, Bytes, Result, Error, All}
use meeseeks_box.Persistence.Bolt.{Bolt, BoltLaws}
use meeseeks_box.Persistence.Logs.{LogsDb}
use meeseeks_box.Shell.Recorded.{AppendsAlways}
use meeseeks_box.Shell.Logged.{stored_lines}
use meeseeks_box.Agent.Logs.{Link, Flight}

-- Entries of a job, of lines that have a property.
abbrev OfJob : ℕ → (Bytes → Type 0) → ℕ × Bytes → Type 0
OfJob id Q (k, line) = (k ≡ id) × Q line

module _ (links : ℕ → Bytes → Link) (id : ℕ) (Q : Bytes → Type 0) where
  abbrev InFlight : Flight → Type 0
  InFlight flight = All (OfJob id Q) flight

module _ (b : Bolt Bytes) (eb : Bolt Bytes) (top : Result (Unit {0})) (show : Error → Bytes)
    (laws : BoltLaws b) (fine : AppendsAlways b eb top show) (id : ℕ) (Q : Bytes → Type 0) where
  -- The lines of the job are those that it had and others, which have the property.
  abbrev IsAdded : Option (LogsDb b eb top) → Option (LogsDb b eb top) → Type 0
  IsAdded s s' =
      (xs : List Bytes) × (stored_lines b eb top show id s' ≡ stored_lines b eb top show id s ++ xs)
      × All Q xs
