-- ===== src/Shell.antt =====
-- commands/shell/shell.go: a command that runs a process, copies what it prints to the answer and
-- to the job's log, and waits for its end or the end of its context. os/exec is an argument.
pub mod Running
pub mod Recorded
pub mod Logged
use meeseeks_box.Base.{
  ℕ, suc, ◌≡◌, List, [], ◌∷◌, ◌++◌, Option, none, some, Bytes, ◌==◌, if◌then◌else◌, Result, ok, err,
  errorf, wrapf, Error,
}
use meeseeks_box.Model.{Job, Command, CommandOpts, shell, with_opts}

-- meeseeks.LogWriter, over the state that it writes to
pub record LogWriter (S : Type 0) : Type 0 where
  pub append : ℕ → Bytes → S → Result (Unit {0}) × S
  pub set_error : ℕ → Error → S → Result (Unit {0}) × S

-- The lines of a job's log: an empty line is not kept, and an error is no line.
abbrev pub kept : Bytes → List Bytes
kept line = if line == [] then [] else line ∷ []

-- A writer keeps the lines of a job while its state has room for them, and an error takes none.
pub record LogWriterLaws {S : Type 0} (w : LogWriter S) (lines : ℕ → S → List Bytes)
    (Room : ℕ → ℕ → S → Type 0) : Type 0 where
  pub append-lines :
      (id k : ℕ) (line : Bytes) (s : S)
      → Room id (suc k) s
      → lines id (w.append id line s).1 ≡ lines id s ++ kept line
  pub append-Room :
      (id k : ℕ) (line : Bytes) (s : S) → Room id (suc k) s → Room id k (w.append id line s).1
  pub set_error-lines :
      (id k : ℕ) (e : Error) (s : S) → Room id k s → lines id (w.set_error id e s).1 ≡ lines id s
  pub set_error-Room :
      (id k : ℕ) (e : Error) (s : S) → Room id k s → Room id k (w.set_error id e s).1

-- How the wait for a started process ends: the scanner came to the end of what is printed, and Wait
-- gives its result; or the scanner stopped before the end, at a line of more than 64 KB or a read
-- that failed, with what it left unread; or the context ends first, with what was scanned until then
-- and, by the goroutine that still scans, later.
pub data Ending : Type 0 where
  scanned : List Bytes → Result (Unit {0}) → Ending
  stopped : List Bytes → Bytes → Result (Unit {0}) → Ending
  context_done : List Bytes → Error → List Bytes → Ending

-- exec.CommandContext of a command: its pipes, its start and its end.
pub record Process : Type 0 where
  pub stdout_pipe : Result (Unit {0})
  pub stderr_pipe : Result (Unit {0})
  pub start : Result (Unit {0})
  pub ending : Ending

-- New
unfoldable pub new : CommandOpts → Command
new opts = with_opts shell opts

module _ {S : Type 0} (w : LogWriter S) where
  -- AppendLogs, whose failure is logged
  unfoldable pub append_logs : ℕ → Bytes → Bytes × S → Bytes × S
  append_logs id line (output, s) = (output ++ (line ++ 10 ∷ []), (w.append id line s).1)

  -- the loop of the scanner
  unfoldable pub scan : ℕ → List Bytes → Bytes × S → Bytes × S
  unfolding append_logs
  scan id [] out = out
  scan id (line ∷ rest) out = scan id rest (append_logs id line out)

  -- SetError, whose failure is logged, with the empty text
  unfoldable pub set_error : ℕ → Error → S → (Bytes × Option Error) × S
  set_error id e s = (([], some e), (w.set_error id e s).1)

  abbrev pub end_wait : ℕ → Result (Unit {0}) → Bytes × S → (Bytes × Option Error) × S
  end_wait id (ok _) (output, s) = ((output, none), s)
  end_wait id (err e) (output, s) = set_error id e s

  abbrev pub end_process : ℕ → Ending → S → (Bytes × Option Error) × S
  end_process id (scanned lines waited) s = end_wait id waited (scan id lines ([], s))
  -- The scanner's error is not looked at.
  end_process id (stopped lines unread waited) s = end_wait id waited (scan id lines ([], s))
  end_process id (context_done before e late) s =
      let (reply, s') = set_error id e (scan id before ([], s)).1 in
      (reply, (scan id late ([], s')).1)

  abbrev pub run_started : ℕ → Result (Unit {0}) → Ending → S → (Bytes × Option Error) × S
  run_started id (err e) ending s = set_error id e s
  run_started id (ok _) ending s = end_process id ending s

  abbrev pub with_stderr : ℕ → Process → Result (Unit {0}) → S → (Bytes × Option Error) × S
  with_stderr id p (err e) s = set_error id (wrapf "could not create stderr pipe: %s" [] e) s
  with_stderr id p (ok _) s = run_started id p.start p.ending s

  abbrev pub with_stdout : ℕ → Process → Result (Unit {0}) → S → (Bytes × Option Error) × S
  with_stdout id p (err e) s = set_error id (wrapf "could not create stdout pipe: %s" [] e) s
  with_stdout id p (ok _) s = with_stderr id p p.stderr_pipe s

  -- Execute: `process` is what runs for a command and its arguments.
  unfoldable pub execute :
      (Bytes → List Bytes → Process) → Command → Job → S → (Bytes × Option Error) × S
  execute process c job s =
      let p = process c.cmd (c.args ++ job.request.args) in with_stdout job.id p p.stdout_pipe s
