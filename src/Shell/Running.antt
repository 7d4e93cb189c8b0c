-- ===== src/Shell/Running.antt =====
-- What a shell command answers, and what is in the log of its job.
use meeseeks_box.Base.{
  suc, subst, length, length-append, arith, ◌+◌, ℕ, ◌≡◌, refl, ap, ◌∙◌, sym, List, [], ◌∷◌, ◌++◌,
  Option, none, some, Bytes, Result, ok, err, Error, Result-cases, inl, inr,
}
use mathlib.Core.List.{append_assoc, append-nil}
use meeseeks_box.Model.{Job, Command}
use meeseeks_box.Shell.{
  LogWriter, LogWriterLaws, kept, Ending, scanned, stopped, context_done, Process, scan, set_error,
  end_wait, end_process, run_started, with_stdout, execute,
}

-- The text of lines, each with its end.
abbrev pub text_of : List Bytes → Bytes
text_of [] = []
text_of (line ∷ rest) = (line ++ 10 ∷ []) ++ text_of rest

abbrev pub kept_lines : List Bytes → List Bytes
kept_lines [] = []
kept_lines (line ∷ rest) = kept line ++ kept_lines rest

module _ {S : Type 0} (w : LogWriter S) where
  pub scan-output :
      (id : ℕ) (ls : List Bytes) (out : Bytes) (s : S)
      → (scan w id ls (out, s)).0 ≡ out ++ text_of ls
  unfolding scan
  scan-output id [] out s = sym (append-nil out)
  scan-output id (l ∷ ls) out s =
      scan-output id ls (out ++ (l ++ 10 ∷ [])) (w.append id l s).1
      ∙ append_assoc out (l ++ 10 ∷ []) (text_of ls)

  module _ (lines : ℕ → S → List Bytes) (Room : ℕ → ℕ → S → Type 0)
      (laws : LogWriterLaws w lines Room) where
    scan-lines :
        (id k : ℕ) (ls : List Bytes) (out : Bytes) (s : S)
        → Room id (length ls + k) s
        → (lines id (scan w id ls (out, s)).1 ≡ lines id s ++ kept_lines ls)
          × Room id k (scan w id ls (out, s)).1
    unfolding scan
    scan-lines id k [] out s has =
        (sym (append-nil (lines id s)), subst (λ n. Room id n s) (omega arith) has)
    scan-lines id k (l ∷ ls) out s has =
        let more : Room id (suc (length ls + k)) s = subst (λ n. Room id n s) (omega arith) has in
        let (logged, left) =
          scan-lines id k ls (out ++ (l ++ 10 ∷ [])) (w.append id l s).1
            (laws.append-Room id (length ls + k) l s more) in
        (
          logged
              ∙ ap (λ x. x ++ kept_lines ls) (laws.append-lines id (length ls + k) l s more)
              ∙ append_assoc (lines id s) (kept l) (kept_lines ls),
          left,
        )

-- What is scanned of a process in all, before and after the context's end.
abbrev pub scanned_until : Ending → List Bytes
scanned_until (scanned ls waited) = ls
scanned_until (stopped ls unread waited) = ls
scanned_until (context_done before e late) = before ++ late

abbrev pub scanned_from : Result (Unit {0}) → Ending → List Bytes
scanned_from (ok _) ending = scanned_until ending
scanned_from (err _) ending = []

abbrev pub scanned_of : Process → List Bytes
scanned_of p = elim p.stdout_pipe [
  | err _ ↦ []
  | ok _ ↦ elim p.stderr_pipe [ err _ ↦ [] | ok _ ↦ scanned_from p.start p.ending ]
]

-- An answer is the whole text with no error, or no text with an error.
abbrev pub IsAnswer : List Bytes → Bytes × Option Error → Type 0
IsAnswer ls (content, none) = content ≡ text_of ls
IsAnswer ls (content, some e) = content ≡ []

kept_lines-append : (xs ys : List Bytes) → kept_lines (xs ++ ys) ≡ kept_lines xs ++ kept_lines ys
kept_lines-append [] ys = refl
kept_lines-append (x ∷ xs) ys =
    ap (λ l. kept x ++ l) (kept_lines-append xs ys)
    ∙ sym (append_assoc (kept x) (kept_lines xs) (kept_lines ys))

module _ {S : Type 0} (w : LogWriter S) (id : ℕ) where
  ended-IsAnswer :
      (ls : List Bytes) (waited : Result (Unit {0})) (s : S)
      → IsAnswer ls (end_wait w id waited (scan w id ls ([], s))).0
  unfolding set_error
  ended-IsAnswer ls (ok _) s = scan-output w id ls [] s
  ended-IsAnswer ls (err e) s = refl

  process-IsAnswer :
      (ending : Ending) (s : S) → IsAnswer (scanned_until ending) (end_process w id ending s).0
  unfolding set_error
  process-IsAnswer (scanned ls waited) s = ended-IsAnswer ls waited s
  process-IsAnswer (stopped ls unread waited) s = ended-IsAnswer ls waited s
  process-IsAnswer (context_done before e late) s = refl

  with_stdout-IsAnswer :
      (p : Process) (s : S) → IsAnswer (scanned_of p) (with_stdout w id p p.stdout_pipe s).0
  unfolding set_error
  with_stdout-IsAnswer p s = elim (Result-cases p.stdout_pipe) [
    | inr (e, h) ↦ rw (h, scanned_of) refl
    | inl (_, h) ↦ elim (Result-cases p.stderr_pipe) [
      | inr (e, k) ↦ rw (h, k, scanned_of) refl
      | inl (_, k) ↦ elim (Result-cases p.start) [
        | inr (e, l) ↦ rw (h, k, l, scanned_of) refl
        | inl (_, l) ↦ rw (h, k, l, scanned_of) (process-IsAnswer p.ending s)
      ]
    ]
  ]

-- A shell command, however its process ends, answers with all the lines that were scanned and no
-- error, or with an error and no text.
pub execute-IsAnswer :
    {S : Type 0} (w : LogWriter S) (process : Bytes → List Bytes → Process) (c : Command)
    (job : Job) (s : S)
    → IsAnswer
        (scanned_of (process c.cmd (c.args ++ job.request.args)))
        (execute w process c job s).0
unfolding execute
execute-IsAnswer w process c job s =
    with_stdout-IsAnswer w job.id (process c.cmd (c.args ++ job.request.args)) s

module _ {S : Type 0} (w : LogWriter S) (lines : ℕ → S → List Bytes) (Room : ℕ → ℕ → S → Type 0)
    (laws : LogWriterLaws w lines Room) (id : ℕ) where
  -- What is in the job's log once lines were scanned.
  abbrev IsRun : S → List Bytes → (Bytes × Option Error) × S → Type 0
  IsRun s ls (reply, s') = lines id s' ≡ lines id s ++ kept_lines ls

  failed_IsRun : (k : ℕ) (e : Error) (s : S) → Room id k s → IsRun s [] (set_error w id e s)
  unfolding set_error
  failed_IsRun k e s has = laws.set_error-lines id k e s has ∙ sym (append-nil (lines id s))

  ended_IsRun :
      (ls : List Bytes) (waited : Result (Unit {0})) (s : S)
      → Room id (length ls) s
      → IsRun s ls (end_wait w id waited (scan w id ls ([], s)))
  unfolding set_error
  ended_IsRun ls waited s has =
      let (logged, left) =
        scan-lines w lines Room laws id 0 ls [] s (subst (λ k. Room id k s) (omega arith) has) in
      elim (Result-cases waited) [
        | inl (_, good) ↦ rw good logged
        | inr (e, bad) ↦ rw bad (laws.set_error-lines id 0 e (scan w id ls ([], s)).1 left ∙ logged)
      ]

  process_IsRun :
      (ending : Ending) (s : S)
      → Room id (length (scanned_until ending)) s
      → IsRun s (scanned_until ending) (end_process w id ending s)
  unfolding set_error
  process_IsRun (scanned ls waited) s has = ended_IsRun ls waited s has
  process_IsRun (stopped ls unread waited) s has = ended_IsRun ls waited s has
  process_IsRun (context_done before e late) s has =
      let s₁ = (scan w id before ([], s)).1 in
      let (logged, left) =
        scan-lines w lines Room laws id (length late) before [] s
          (subst (λ k. Room id k s) (length-append before late) has) in
      let left' : Room id (length late + 0) (w.set_error id e s₁).1 =
        subst (λ k. Room id k (w.set_error id e s₁).1) (omega arith)
          (laws.set_error-Room id (length late) e s₁ left) in
      (scan-lines w lines Room laws id 0 late [] (w.set_error id e s₁).1 left').0
      ∙ ap (λ l. l ++ kept_lines late) (laws.set_error-lines id (length late) e s₁ left ∙ logged)
      ∙ append_assoc (lines id s) (kept_lines before) (kept_lines late)
      ∙ ap (λ l. lines id s ++ l) (sym (kept_lines-append before late))

  started_IsRun :
      (start : Result (Unit {0})) (ending : Ending) (s : S)
      → Room id (length (scanned_from start ending)) s
      → IsRun s (scanned_from start ending) (run_started w id start ending s)
  started_IsRun (ok _) ending s has = process_IsRun ending s has
  started_IsRun (err e) ending s has = failed_IsRun 0 e s has

  with_stdout-IsRun :
      (p : Process) (s : S)
      → Room id (length (scanned_of p)) s
      → IsRun s (scanned_of p) (with_stdout w id p p.stdout_pipe s)
  with_stdout-IsRun p s has = elim (Result-cases p.stdout_pipe) [
    | inr (e, h) ↦ rw (h, scanned_of) (failed_IsRun (length (scanned_of p)) _ s has)
    | inl (_, h) ↦ elim (Result-cases p.stderr_pipe) [
      | inr (e, k) ↦ rw (h, k, scanned_of) (failed_IsRun (length (scanned_of p)) _ s has)
      | inl (_, k) ↦
          rw (h, k, scanned_of) (started_IsRun p.start p.ending s (rw (h, k, scanned_of) at has))
    ]
  ]

-- What was scanned is in the job's log, behind what was there.
pub execute-logs :
    {S : Type 0} (w : LogWriter S) (lines : ℕ → S → List Bytes) (Room : ℕ → ℕ → S → Type 0)
    (process : Bytes → List Bytes → Process) (c : Command) (job : Job) (s : S)
    → LogWriterLaws w lines Room
    → Room job.id (length (scanned_of (process c.cmd (c.args ++ job.request.args)))) s
    → lines job.id (execute w process c job s).1
      ≡ lines job.id s ++ kept_lines (scanned_of (process c.cmd (c.args ++ job.request.args)))
unfolding execute
execute-logs w lines Room process c job s laws has =
    with_stdout-IsRun w lines Room laws job.id (process c.cmd (c.args ++ job.request.args)) s has
