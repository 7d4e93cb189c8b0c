-- ===== src/Main.antt =====
-- main.go: the start of the program from its configuration, and the signals that it waits for. The
-- files, the connections and the servers are input and output, of which only the results count.
pub mod Signals
pub mod Launching
pub mod Arguments
use meeseeks_box.Base.{
  ℕ, ◌≡◌, Bool, true, false, not, List, [], ◌∷◌, Option, none, some, Bytes, str, ◌==◌,
  if◌then◌else◌, Result, ok, err,
}
use meeseeks_box.Model.{Command}
use meeseeks_box.Builtins.Table.{load_builtins, new_cancel_job_command, new_kill_job_command}
use meeseeks_box.Persistence.Opening.{DatabaseConfig, Database}
use meeseeks_box.Config.{Config, World, load_configuration}

-- parseArgs: the mode that the flag -agent-of chooses
unfoldable pub execution_mode : Bytes → Bytes
execution_mode agent_of = if agent_of == [] then str "server" else str "agent"

pub data Signal : Type 0 where
  sighup sigint sigterm sigusr1 : Signal

module _ {D : Type 0} (open_file : DatabaseConfig → Result D)
    (flush : Database D → Result (Unit {0}) × Database D) where
  -- the function that reloads: what the file reads as, or why it does not; a failure is logged
  unfoldable pub reload : Result Config → World D → World D
  reload (err e) w = w
  reload (ok cnf) w = (load_configuration open_file cnf w).1

  abbrev pub flushed : Result (Unit {0}) × Database D → World D → Option (World D)
  flushed (err e, database) w = none
  flushed (ok _, database) w = some (record w { database = database })

  -- executor.New, which drops the error of LoadBuiltins
  abbrev pub with_builtins : World D → World D
  with_builtins w = record w {
    registry =
        (load_builtins (some new_cancel_job_command) (some new_kill_job_command) w.registry).1;
  }

  abbrev pub started : Option (World D) → Option (World D)
  started none = none
  started (some w) = some (with_builtins w)

  abbrev pub launch_mode : Bytes → World D → Option (World D)
  launch_mode mode w =
      if mode == str "server"
      then started (flushed (flush w.database) w)
      else if mode == str "agent"
      then some w
      else none

  abbrev pub launch_with : Bytes → Result (Unit {0}) × World D → Option (World D)
  launch_with mode (err e, w) = none
  launch_with mode (ok _, w) = launch_mode mode w

  -- What launch leaves in the packages; `none` is the exit of `must`, or an error. `flush` is
  -- Jobs().FailRunningJobs.
  unfoldable pub launch : Bytes → Result Config → World D → Option (World D)
  launch mode (err e) w = none
  launch mode (ok cnf) w = launch_with mode (load_configuration open_file cnf w)

  -- The packages, whether debug messages are logged, and whether the program was shut down.
  pub record Waiting : Type 0 where
    pub world : World D
    pub debug : Bool
    pub shut_down : Bool

  -- The loop of waitForSignals, over the signals that come, each with what the file reads as then.
  unfoldable pub wait_for_signals : List (Signal × Result Config) → Waiting → Waiting
  unfolding reload
  wait_for_signals [] s = s
  wait_for_signals ((sigint, file) ∷ rest) s = record s { shut_down = true }
  wait_for_signals ((sigterm, file) ∷ rest) s = record s { shut_down = true }
  wait_for_signals ((sighup, file) ∷ rest) s =
      wait_for_signals rest (record s { world = reload file s.world })
  wait_for_signals ((sigusr1, file) ∷ rest) s =
      wait_for_signals rest (record s { debug = not s.debug })
