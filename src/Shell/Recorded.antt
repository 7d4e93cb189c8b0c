-- ===== src/Shell/Recorded.antt =====
-- A shell command with the local log writer (persistence/logs/local/logs.go), and what the readers
-- of its logs give behind it.
use meeseeks_box.Base.{
  ℕ, suc, ◌≡◌, ◌≢◌, refl, sym, subst, ◌∙◌, ap, true, List, [], ◌∷◌, ◌++◌, Option, none, some, Bytes,
  ◌==◌, arith, Result, ok, Error, length, join, take, reverse, map, ◌⊎◌, inl, inr, Bool-cases,
}
use mathlib.Core.List.{append_assoc, append-nil}
use meeseeks_box.Model.{Job, Command}
use meeseeks_box.Persistence.Bolt.{Bolt, BoltLaws}
use meeseeks_box.Persistence.Logs.{JobBucket, LogsDb, append, set_error, get, head, tail}
use meeseeks_box.Persistence.Logs.Reading.{Holds, lines_of, read-lines, map-append}
use meeseeks_box.Persistence.Logs.Appending.{
  HasRoom, IsAppended, append-IsAppended, IsAppended-HasRoom,
}
use meeseeks_box.Shell.{LogWriter, Process, scanned, scan, execute}
use meeseeks_box.Shell.Running.{text_of, kept_lines, scan-output}

module _ (b : Bolt Bytes) (eb : Bolt Bytes) (top : Result (Unit {0})) (show : Error → Bytes) where
  -- localWriter, which stores the text of an error
  abbrev pub local_writer : LogWriter (Option (LogsDb b eb top))
  local_writer = record {
    append = append b eb top;
    set_error = λ id e s. set_error b eb top id (some (show e)) s;
  }

  -- The store is open, and no append to it fails.
  pub record AppendsAlways : Type 0 where
    pub appends :
        (id : ℕ) (line : Bytes) (db : LogsDb b eb top)
        → (append b eb top id line (some db)).0 ≡ ok tt

  -- What is in the log of a job when lines were scanned.
  pub record IsLogged (id : ℕ) (before : LogsDb b eb top) (j : JobBucket b eb top) (xs : List Bytes)
      (s : Option (LogsDb b eb top)) : Type 0 where
    pub db : LogsDb b eb top
    pub bucket : JobBucket b eb top
    pub state : s ≡ some db
    pub lines : lines_of b eb top bucket ≡ lines_of b eb top j ++ xs
    pub quiet : bucket.error ≡ none
    pub holds : Holds b eb top id before j ⊎ (xs ≢ []) → Holds b eb top id db bucket

  pub fewer :
      (id k : ℕ) (db : LogsDb b eb top) (j : JobBucket b eb top)
      → HasRoom b eb top id (suc k) db j
      → HasRoom b eb top id k db j
  fewer id k db j has = record {
    opens = has.opens;
    room = omega (arith, has.room);
    below = has.below;
  }

  pub lines-IsAppended :
      (id : ℕ) (content : Bytes) (j : JobBucket b eb top) (s' : Option (LogsDb b eb top))
      → (a : IsAppended b eb top id content j s')
      → lines_of b eb top a.bucket ≡ lines_of b eb top j ++ content ∷ []
  lines-IsAppended id content j s' a =
      ap (map (λ (e : Bytes × Bytes). e.1)) a.cursor
      ∙ map-append (λ (e : Bytes × Bytes). e.1) (b.cursor j.lines) (_ ∷ [])

  pub blank_line :
      (id : ℕ) (l : Bytes) (db : LogsDb b eb top)
      → l == [] ≡ true
      → (append b eb top id l (some db)).1 ≡ some db
  unfolding append
  blank_line id l db h = rw h refl

  -- A scan goes on from what the append of its first line leaves.
  scan-next :
      (id : ℕ) (l : Bytes) (ls : List Bytes) (out : Bytes) (db db₁ : LogsDb b eb top)
      (j : JobBucket b eb top) (xs : List Bytes)
      → (append b eb top id l (some db)).1 ≡ some db₁
      → IsLogged id db j xs (scan local_writer id ls (out ++ (l ++ 10 ∷ []), some db₁)).1
      → IsLogged id db j xs (scan local_writer id (l ∷ ls) (out, some db)).1
  unfolding scan
  scan-next id l ls out db db₁ j xs e t =
      subst (λ s. IsLogged id db j xs (scan local_writer id ls (out ++ (l ++ 10 ∷ []), s)).1)
        (sym e) t

  scan-IsLogged :
      (id : ℕ) (ls : List Bytes) (out : Bytes) (db : LogsDb b eb top) (j : JobBucket b eb top)
      → BoltLaws b
      → AppendsAlways
      → HasRoom b eb top id (length ls) db j
      → j.error ≡ none
      → IsLogged id db j (kept_lines ls) (scan local_writer id ls (out, some db)).1
  unfolding scan
  scan-IsLogged id [] out db j laws fine has quiet = record {
    db = db;
    bucket = j;
    state = refl;
    lines = sym (append-nil (lines_of b eb top j));
    quiet = quiet;
    holds = λ h. elim h [ inl held ↦ held | inr some_line ↦ absurd (some_line refl) ];
  }
  scan-IsLogged id (l ∷ ls) out db j laws fine has quiet = elim (Bool-cases (l == [])) [
    | inl blank ↦ scan-next id l ls out db db j (kept_lines (l ∷ ls)) (blank_line id l db blank) (
        rw blank (
          scan-IsLogged id ls (out ++ (l ++ 10 ∷ [])) db j laws fine (fewer id (length ls) db j has)
            quiet))
    | inr filled ↦
        let s₁ = (append b eb top id l (some db)).1 in
        let went : append b eb top id l (some db) ≡ (ok tt, s₁) =
          ap (λ r. (r, s₁)) (fine.appends id l db) in
        let a = append-IsAppended b eb top id (length ls) l db j s₁ laws filled has went in
        let more =
          scan-IsLogged id ls (out ++ (l ++ 10 ∷ [])) a.db a.bucket laws fine
            (IsAppended-HasRoom b eb top id (length ls) l db j s₁ has a) (a.error ∙ quiet) in
        scan-next id l ls out db a.db j (kept_lines (l ∷ ls)) a.state (
          rw filled (record {
            db = more.db;
            bucket = more.bucket;
            state = more.state;
            lines =
                more.lines
                ∙ ap (λ x. x ++ kept_lines ls) (lines-IsAppended id l j s₁ a)
                ∙ append_assoc (lines_of b eb top j) (l ∷ []) (kept_lines ls);
            quiet = more.quiet;
            holds = λ h. more.holds (inl a.holds);
          }))
  ]

  -- If no append fails, the job has no error and enough sequences, and it has lines already or some
  -- line is not empty, then a shell command that prints lines and ends well answers with their text,
  -- and behind it the readers give the lines that the job had and those of the command, in order,
  -- less the empty ones: all of them, the first ones, or the last ones.
  pub execute-read :
      (process : Bytes → List Bytes → Process) (c : Command) (job : Job) (ls : List Bytes)
      (limit : ℕ) (db : LogsDb b eb top) (j : JobBucket b eb top)
      → BoltLaws b
      → AppendsAlways
      → HasRoom b eb top job.id (length ls) db j
      → j.error ≡ none
      → Holds b eb top job.id db j ⊎ (kept_lines ls ≢ [])
      → process c.cmd (c.args ++ job.request.args) ≡ record {
        stdout_pipe = ok tt;
        stderr_pipe = ok tt;
        start = ok tt;
        ending = scanned ls (ok tt);
      }
      → let out = execute local_writer process c job (some db) in
        let all = lines_of b eb top j ++ kept_lines ls in
        (out.0 ≡ (text_of ls, none))
        × (get b eb top job.id out.1 ≡ ok (record { output = join (10 ∷ []) all; error = [] }))
        × (head b eb top job.id limit out.1
            ≡ ok (record { output = join (10 ∷ []) (take limit all); error = [] }))
        × (tail b eb top job.id limit out.1
            ≡ ok (record {
              output = join (10 ∷ []) (reverse (take limit (reverse all)));
              error = [];
            }))
  unfolding execute
  execute-read process c job ls limit db j laws fine has quiet some_line p =
      let logged = scan-IsLogged job.id ls [] db j laws fine has quiet in
      let (got, first, last) =
        read-lines b eb top job.id limit logged.db logged.bucket (logged.holds some_line)
          logged.quiet in
      rw (p, logged.state)
        (
          ap (λ t. (t, none)) (scan-output local_writer job.id ls [] (some db)),
          rw logged.lines at got,
          rw logged.lines at first,
          rw logged.lines at last,
        )
