-- ===== src/Persistence/Opening.antt =====
-- persistence/db/db.go: opening and closing the database. bolt.Open is an argument.
use meeseeks_box.Base.{ℕ, Bytes, Result, ok, err}

-- The timeout is a time.Duration, and the mode that of the file.
pub record DatabaseConfig : Type 0 where
  pub path : Bytes
  pub timeout : ℕ
  pub mode : ℕ

-- the package's variable `database`: nil, open, or closed
pub data Database (D : Type 0) : Type 0 where
  unopened : Database D
  opened : D → Database D
  closed : Database D

module _ {D : Type 0} where
  -- database.Close(), whose error is dropped
  unfoldable pub close : Database D → Database D
  close unopened = unopened
  close (opened d) = closed
  close closed = closed

  abbrev pub open_as : Result D → Database D → Result (Unit {0}) × Database D
  open_as (err e) database = (err e, database)
  open_as (ok d) database = (ok tt, opened d)

  -- Configure: if the file cannot be opened, the variable keeps the database that was closed.
  unfoldable pub configure :
      (DatabaseConfig → Result D) → DatabaseConfig → Database D → Result (Unit {0}) × Database D
  unfolding close
  configure open_file cnf database = open_as (open_file cnf) (close database)
