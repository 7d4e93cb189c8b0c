-- ===== src/Executor/Closing.antt =====
-- Shutdown of meeseeks/executor/executor.go: the wait for the tasks and the close of their channel,
-- beside the requests, which do not stop, and the goroutines.
pub mod Drained
use meeseeks_box.Base.{
  ℕ, ◌+◌, ◌≤◌, ◌<◌, ◌≡◌, List, [], ◌∷◌, ◌++◌, Bytes, Option, Error, Result, length,
}
use meeseeks_box.Model.{Request}
use meeseeks_box.Auth.{Auth}
use meeseeks_box.Commands.{Registry}
use meeseeks_box.Executor.{
  Task, JobService, State, Outcome, replied, queued, panicked, admit, after, start, finish, cancel,
  Step, Reachable,
}

-- Where Shutdown is: not called, at wg.Wait, behind it, and behind the close of the channel; or the
-- process has panicked.
pub data Phase : Type 0 where
  serving waiting waited closed crashed : Phase

abbrev pub IsBehindWait : Phase → Type 0
IsBehindWait waited = Unit
IsBehindWait closed = Unit
IsBehindWait _ = ⊥

abbrev pub IsBeforeWait : Phase → Type 0
IsBeforeWait serving = Unit
IsBeforeWait waiting = Unit
IsBeforeWait _ = ⊥

module _ {S : Type 0} (jobs : JobService S) where
  -- The executor, with the tasks that were accepted behind the wait.
  pub record Closing : Type 0 where
    pub state : State jobs
    pub phase : Phase
    pub late : List Task

  abbrev pub at : State jobs → Phase → List Task → Closing
  at st p late = record { state = st; phase = p; late = late }

  -- A request behind the wait is handled as before it.
  abbrev pub received : Outcome jobs → State jobs → List Task → Closing
  received (replied r w) st late = at (after jobs (replied r w) st) waited late
  received (queued t w) st late = at (after jobs (queued t w) st) waited (t ∷ late)
  received panicked st late = at st crashed late

  -- On a closed channel a send panics, behind wg.Add and the creation of the job.
  abbrev pub received_closed : Outcome jobs → State jobs → List Task → Closing
  received_closed (replied r w) st late = at (after jobs (replied r w) st) closed late
  received_closed (queued t w) st late =
      at (record st { store = w; wg = st.wg + 1 }) crashed (t ∷ late)
  received_closed panicked st late = at st crashed late

  -- `capacity` is that of the channel: what is queued beyond it waits to be sent.
  pub data Shuts (auth : Auth) (capacity : ℕ) : Closing → Closing → Type 0 where
    works :
        (st st' : State jobs) (p : Phase) (late : List Task)
        → IsBeforeWait p
        → Step jobs auth st st'
        → Shuts auth capacity (at st p late) (at st' p late)
    shuts_down :
        (st : State jobs) (late : List Task)
        → Shuts auth capacity (at st serving late) (at st waiting late)
    stops_waiting :
        (st : State jobs) (late : List Task)
        → st.wg ≡ 0
        → Shuts auth capacity (at st waiting late) (at st waited late)
    closes :
        (st : State jobs) (late : List Task)
        → length st.queue ≤ capacity
        → Shuts auth capacity (at st waited late) (at st closed late)
    closes_blocked :
        (st : State jobs) (late : List Task)
        → capacity < length st.queue
        → Shuts auth capacity (at st waited late) (at st crashed late)
    receives :
        (st : State jobs) (late : List Task) (alias : Result (Bytes × List Bytes)) (req : Request)
        → Shuts auth capacity
            (at st waited late)
            (received (admit jobs auth alias req st.registry st.store) st late)
    receives_closed :
        (st : State jobs) (late : List Task) (alias : Result (Bytes × List Bytes)) (req : Request)
        → Shuts auth capacity
            (at st closed late)
            (received_closed (admit jobs auth alias req st.registry st.store) st late)
    begins :
        (st : State jobs) (p : Phase) (late : List Task) (t : Task) (rest : List Task)
        → IsBehindWait p
        → st.queue ≡ t ∷ rest
        → Shuts auth capacity (at st p late) (at (start jobs t rest st) p late)
    ends :
        (st : State jobs) (p : Phase) (late : List Task) (before : List (Task × ℕ)) (t : Task)
        (ctx : ℕ) (behind : List (Task × ℕ)) (out : Bytes) (e : Option Error)
        → IsBehindWait p
        → st.running ≡ before ++ (t, ctx) ∷ behind
        → Shuts auth capacity (at st p late) (at (finish jobs t out e (before ++ behind) st) p late)
    cancels :
        (st : State jobs) (p : Phase) (late : List Task) (id : ℕ)
        → IsBehindWait p
        → Shuts auth capacity
            (at st p late)
            (at (record st { active = cancel id st.active }) p late)
    registers :
        (st : State jobs) (p : Phase) (late : List Task) (registry : Registry)
        → IsBehindWait p
        → Shuts auth capacity (at st p late) (at (record st { registry = registry }) p late)

  -- What Shutdown can be in, in whatever state it is called.
  pub data Reached (auth : Auth) (capacity : ℕ) : Closing → Type 0 where
    called : {st : State jobs} → Reachable jobs auth st → Reached auth capacity (at st serving [])
    then_shuts :
        {c c' : Closing}
        → Reached auth capacity c
        → Shuts auth capacity c c'
        → Reached auth capacity c'
