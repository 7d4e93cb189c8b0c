-- ===== src/Executor/Admission.antt =====
-- Nothing runs that the authorization did not pass.
use meeseeks_box.Base.{
  ◌≡◌, refl, sym, ◌∙◌, ap, Bool, true, false, not, List, [], ◌∷◌, ◌++◌, Option, none, some,
  if◌then◌else◌, Result, ok, err, All, All-append,
}
use meeseeks_box.Model.{Request, Job, Command}
use meeseeks_box.Auth.{Auth, check}
use meeseeks_box.Commands.{find}
use meeseeks_box.Executor.{
  Task, JobService, create_task, task_with, State, Outcome, queued, replied, panicked, admit,
  admit_found, admit_checked, admit_task, after, Step, receive, begin, end, cancels, registers,
  Reachable, initially, then_step,
}

-- A job that is made for a request is of that request.
pub record JobServiceLaws {S : Type 0} (jobs : JobService S) : Type 0 where
  pub request-null : (req : Request) (w : S) → (jobs.null req w).request ≡ req
  pub request-create :
      (req : Request) (w : S) (j : Job) → (jobs.create req w).0 ≡ ok j → j.request ≡ req

All-without :
    {A : Type 0} (P : A → Type 0) (xs : List A) (a : A) (ys : List A)
    → All P (xs ++ a ∷ ys)
    → All P (xs ++ ys)
All-without P [] a ys (p, h) = h
All-without P (x ∷ xs) a ys (p, h) = (p, All-without P xs a ys h)

module _ {S : Type 0} (jobs : JobService S) (laws : JobServiceLaws jobs) (auth : Auth) where
  abbrev pub IsAllowed : Task → Type 0
  IsAllowed t = check auth t.job.request t.cmd ≡ ok tt

  create_task-eq :
      (req : Request) (cmd : Command) (w : S) (t : Task)
      → (create_task jobs req cmd w).0 ≡ ok t
      → (t.cmd ≡ cmd) × (t.job.request ≡ req)
  unfolding create_task
  create_task-eq req cmd w t h = recorded_or cmd.must_record h
    where
      with_job :
          (r : Result Job × S)
          → jobs.create req w ≡ r
          → (task_with jobs cmd r).0 ≡ ok t
          → (t.cmd ≡ cmd) × (t.job.request ≡ req)
      with_job (ok j, w') e k =
          let same : record { job = j; cmd = cmd } ≡ t = cc k in
          (
            ap (λ (x : Task). x.cmd) (sym same),
            ap (λ (x : Task). x.job.request) (sym same)
                ∙ laws.request-create req w j (ap (λ r. r.0) e),
          )
      with_job (err x, w') e k = cc k

      recorded_or :
          (b : Bool)
          → (if not b
              then (ok (record { job = jobs.null req w; cmd = cmd }), w)
              else task_with jobs cmd (jobs.create req w)).0
            ≡ ok t
          → (t.cmd ≡ cmd) × (t.job.request ≡ req)
      recorded_or false k =
          let same : record { job = jobs.null req w; cmd = cmd } ≡ t = cc k in
          (
            ap (λ (x : Task). x.cmd) (sym same),
            ap (λ (x : Task). x.job.request) (sym same) ∙ laws.request-null req w,
          )
      recorded_or true k = with_job (jobs.create req w) refl k

  abbrev pub OnlyAllowed : Outcome jobs → Type 0
  OnlyAllowed (queued t w) = IsAllowed t
  OnlyAllowed _ = Unit

  admit_task-OnlyAllowed :
      (req : Request) (cmd : Command) (w : S)
      → check auth req cmd ≡ ok tt
      → OnlyAllowed (admit_task jobs req (create_task jobs req cmd w))
  admit_task-OnlyAllowed req cmd w passed = go (create_task jobs req cmd w) refl
    where
      go :
          (r : Result Task × S)
          → create_task jobs req cmd w ≡ r
          → OnlyAllowed (admit_task jobs req r)
      go (ok t, w') e =
          let (c, q) = create_task-eq req cmd w t (ap (λ r. r.0) e) in rw (c, q) passed
      go (err x, w') e = tt

  admit_found-OnlyAllowed :
      (f : Option Command × Bool × Request) (w : S) → OnlyAllowed (admit_found jobs auth f w)
  admit_found-OnlyAllowed (cmd, false, req) w = tt
  admit_found-OnlyAllowed (none, true, req) w = tt
  admit_found-OnlyAllowed (some cmd, true, req) w = checked (check auth req cmd) refl
    where
      checked :
          (r : Result (Unit {0}))
          → check auth req cmd ≡ r
          → OnlyAllowed (admit_checked jobs req cmd r w)
      checked (err e) h = tt
      checked (ok u) h = admit_task-OnlyAllowed req cmd w h

  record IsGuarded (st : State jobs) : Type 0 where
    queue : All IsAllowed st.queue
    running : All (λ e. IsAllowed e.0) st.running

  receive-IsGuarded :
      (o : Outcome jobs) (st : State jobs)
      → OnlyAllowed o
      → IsGuarded st
      → IsGuarded (after jobs o st)
  receive-IsGuarded (replied r w) st h g = record { queue = g.queue; running = g.running }
  receive-IsGuarded (queued t w) st h g = record {
    queue = All-append IsAllowed st.queue (t ∷ []) g.queue (h, tt);
    running = g.running;
  }
  receive-IsGuarded panicked st h g = g

  Step-IsGuarded : {st st' : State jobs} → Step jobs auth st st' → IsGuarded st → IsGuarded st'
  Step-IsGuarded (receive st alias req) g =
      receive-IsGuarded (admit jobs auth alias req st.registry st.store) st
        (unfold admit in admit_found-OnlyAllowed (find st.registry alias req) st.store) g
  Step-IsGuarded (begin st t rest e) g =
      let (p, ps) = rw e at g.queue in record { queue = ps; running = (p, g.running) }
  Step-IsGuarded (end st before t ctx behind out e s) g = record {
    queue = g.queue;
    running = All-without (λ x. IsAllowed x.0) before (t, ctx) behind (rw s at g.running);
  }
  Step-IsGuarded (cancels st id) g = record { queue = g.queue; running = g.running }
  Step-IsGuarded (registers st registry) g = record { queue = g.queue; running = g.running }

  Reachable-IsGuarded : {st : State jobs} → Reachable jobs auth st → IsGuarded st
  Reachable-IsGuarded (initially registry w) = record { queue = tt; running = tt }
  Reachable-IsGuarded (then_step r s) = Step-IsGuarded s (Reachable-IsGuarded r)

  -- In whatever order requests, goroutines, cancellations and registrations come, each task that
  -- waits or runs is of a command that the check passes for its job's request.
  pub running-IsAllowed :
      (st : State jobs)
      → Reachable jobs auth st
      → All IsAllowed st.queue × All (λ e. IsAllowed e.0) st.running
  running-IsAllowed st r = ((Reachable-IsGuarded r).queue, (Reachable-IsGuarded r).running)
