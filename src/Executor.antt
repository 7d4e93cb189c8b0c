-- ===== src/Executor.antt =====
-- meeseeks/executor/executor.go: requests become tasks, which run one beside the other, and their
-- outcomes are replied and recorded.
pub mod Admission
pub mod Accounting
pub mod Cancellation
pub mod Replying
pub mod Closing
use meeseeks_box.Base.{
  ℕ, ◌+◌, ◌-◌, ◌≡◌, Bool, true, false, not, List, [], ◌∷◌, ◌++◌, Option, none, some, Bytes, eqb,
  if◌then◌else◌, Result, ok, err, wrapf, Error,
}
use meeseeks_box.Model.{Request, Job, Command}
use meeseeks_box.Auth.{Auth, check}
use meeseeks_box.Commands.{Registry, find}

pub record Task : Type 0 where
  pub job : Job
  pub cmd : Command

-- formatter's replies: to a request, with the output or the error
pub data Reply : Type 0 where
  unknown_command unauthorized handshake : Request → Reply
  failure : Request → Error → Bytes → Reply
  success : Request → Bytes → Reply

-- The jobs store, over its state; the errors of Fail and Succeed are dropped.
pub record JobService (S : Type 0) : Type 0 where
  pub null : Request → S → Job
  pub create : Request → S → Result Job × S
  pub fail : ℕ → S → S
  pub succeed : ℕ → S → S

-- The contexts are numbered as they are made. `active` maps a job's ID to the context that its
-- cancel function cancels.
pub record ActiveCommands : Type 0 where
  pub ctx : List (ℕ × ℕ)
  pub cancelled : List ℕ

unfoldable pub lookup_ctx : ℕ → List (ℕ × ℕ) → Option ℕ
lookup_ctx id [] = none
lookup_ctx id ((k, c) ∷ m) = if eqb k id then some c else lookup_ctx id m

unfoldable pub delete_ctx : ℕ → List (ℕ × ℕ) → List (ℕ × ℕ)
delete_ctx id [] = []
delete_ctx id ((k, c) ∷ m) = let rest = delete_ctx id m in if eqb k id then rest else (k, c) ∷ rest

-- `Add`, whose new context has this number
unfoldable pub add : ℕ → ℕ → ActiveCommands → ActiveCommands
unfolding delete_ctx
add id ctx a = record a { ctx = (id, ctx) ∷ delete_ctx id a.ctx }

unfoldable pub cancel : ℕ → ActiveCommands → ActiveCommands
unfolding lookup_ctx delete_ctx
cancel id a = elim (lookup_ctx id a.ctx) [
  | none ↦ a
  | some c ↦ record { ctx = delete_ctx id a.ctx; cancelled = c ∷ a.cancelled }
]

module _ {S : Type 0} (jobs : JobService S) where
  abbrev pub task_with : Command → Result Job × S → Result Task × S
  task_with cmd (ok j, w) = (ok (record { job = j; cmd = cmd }), w)
  task_with cmd (err e, w) = (err e, w)

  unfoldable pub create_task : Request → Command → S → Result Task × S
  create_task req cmd w =
      if not cmd.must_record
      then (ok (record { job = jobs.null req w; cmd = cmd }), w)
      else task_with cmd (jobs.create req w)

  -- The state: `queue` is the tasks channel, with what waits to be sent on it, `running` the goroutines, each with its context.
  pub record State : Type 0 where
    pub registry : Registry
    pub store : S
    pub queue : List Task
    pub running : List (Task × ℕ)
    pub active : ActiveCommands
    pub next_ctx : ℕ
    pub wg : ℕ
    pub sent : List Reply

  abbrev pub reply : Reply → State → State
  reply r st = record st { sent = st.sent ++ r ∷ [] }

  -- What the body of Run does with a request: a reply, or a task for the channel.
  pub data Outcome : Type 0 where
    replied : Reply → S → Outcome
    queued : Task → S → Outcome
    panicked : Outcome

  abbrev pub admit_task : Request → Result Task × S → Outcome
  admit_task req (ok t, w) = queued t w
  admit_task req (err e, w) = replied (failure req (wrapf "could not create task: %s" [] e) []) w

  abbrev pub admit_checked : Request → Command → Result (Unit {0}) → S → Outcome
  admit_checked req cmd (err e) w = replied (unauthorized req) w
  admit_checked req cmd (ok _) w = admit_task req (create_task req cmd w)

  -- A nil command panics in auth.Check.
  abbrev pub admit_found : Auth → Option Command × Bool × Request → S → Outcome
  admit_found auth (cmd, false, req) w = replied (unknown_command req) w
  admit_found auth (none, true, req) w = panicked
  admit_found auth (some cmd, true, req) w = admit_checked req cmd (check auth req cmd) w

  unfoldable pub admit : Auth → Result (Bytes × List Bytes) → Request → Registry → S → Outcome
  admit auth alias req registry w = admit_found auth (find registry alias req) w

  abbrev pub after : Outcome → State → State
  after (replied r w) st = record (reply r st) { store = w }
  after (queued t w) st = record st { store = w; queue = st.queue ++ t ∷ []; wg = st.wg + 1 }
  after panicked st = st

  -- A goroutine starts with the first task of the channel.
  abbrev pub start : Task → List Task → State → State
  start t rest st = record st {
    queue = rest;
    running = (t, st.next_ctx) ∷ st.running;
    active = add t.job.id st.next_ctx st.active;
    next_ctx = st.next_ctx + 1;
    sent = if t.cmd.has_handshake then st.sent ++ handshake t.job.request ∷ [] else st.sent;
  }

  abbrev pub final_reply : Task → Bytes → Option Error → Reply
  final_reply t out (some e) = failure t.job.request e out
  final_reply t out none = success t.job.request out

  abbrev pub record_end : Task → Option Error → S → S
  record_end t (some e) w = jobs.fail t.job.id w
  record_end t none w = jobs.succeed t.job.id w

  -- It ends with what Execute returned: the reply, the record, wg.Done and the deferred Cancel.
  abbrev pub finish : Task → Bytes → Option Error → List (Task × ℕ) → State → State
  finish t out e rest st = record st {
    store = record_end t e st.store;
    running = rest;
    active = cancel t.job.id st.active;
    wg = st.wg - 1;
    sent = st.sent ++ final_reply t out e ∷ [];
  }

  -- The orders in which requests, goroutines and cancellations may come. A registration may come
  -- in between.
  pub data Step (auth : Auth) : State → State → Type 0 where
    receive :
        (st : State) (alias : Result (Bytes × List Bytes)) (req : Request)
        → Step auth st (after (admit auth alias req st.registry st.store) st)
    begin :
        (st : State) (t : Task) (rest : List Task)
        → st.queue ≡ t ∷ rest
        → Step auth st (start t rest st)
    end :
        (st : State) (before : List (Task × ℕ)) (t : Task) (ctx : ℕ) (behind : List (Task × ℕ))
        (out : Bytes) (e : Option Error)
        → st.running ≡ before ++ (t, ctx) ∷ behind
        → Step auth st (finish t out e (before ++ behind) st)
    cancels : (st : State) (id : ℕ) → Step auth st (record st { active = cancel id st.active })
    registers :
        (st : State) (registry : Registry) → Step auth st (record st { registry = registry })

  -- The states after `New`, with the number of steps.
  pub data Reachable (auth : Auth) : State → Type 0 where
    initially :
        (registry : Registry) (w : S)
        → Reachable auth (record {
          registry = registry;
          store = w;
          queue = [];
          running = [];
          active = record { ctx = []; cancelled = [] };
          next_ctx = 0;
          wg = 0;
          sent = [];
        })
    then_step : {st st' : State} → Reachable auth st → Step auth st st' → Reachable auth st'
