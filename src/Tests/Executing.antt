-- ===== src/Tests/Executing.antt =====
-- A request that is received and starts to run (meeseeks/executor/executor.go).
use meeseeks_box.Base.{
  ◌≡◌, refl, ◌==◌, ◌+◌, ℕ, [], ◌∷◌, str, some, ok, err, All, length, alias_not_found,
}
use meeseeks_box.Base.Assoc.{lookup}
use meeseeks_box.Auth.{Auth, configure, check}
use meeseeks_box.Commands.{Registry, kind_builtin_command, find}
use meeseeks_box.Persistence.Jobs.{new_job}
use meeseeks_box.Builtins.Table.{new_cancel_job_command}
use meeseeks_box.Executor.{
  ActiveCommands, Task, JobService, State, admit, after, start, create_task, receive, begin,
  Reachable, initially, then_step,
}
use meeseeks_box.Executor.Admission.{JobServiceLaws, IsAllowed, running-IsAllowed}
use meeseeks_box.Executor.Accounting.{wg_counts}
use meeseeks_box.Executor.Closing.{
  waited, Closing, received, Reached, called, then_shuts, shuts_down, stops_waiting, receives,
}
use meeseeks_box.Executor.Closing.Drained.{AreLate, shutdown-drains}
use meeseeks_box.Tests.Access.{request}

abbrev jobs : JobService ℕ
jobs = record {
  null = λ req w. new_job 5 0 req;
  create = λ req w. (ok (new_job 5 (w + 1) req), w + 1);
  fail = λ id w. w;
  succeed = λ id w. w;
}

jobs-JobServiceLaws : JobServiceLaws jobs
jobs-JobServiceLaws = record { request-null = λ req w. refl; request-create = λ req w j e. cc e }

abbrev auth : Auth
auth = configure []

abbrev registry : Registry
registry =
    (str "deploy", record { kind = kind_builtin_command; cmd = some new_cancel_job_command }) ∷ []

abbrev idle : State jobs
idle = record {
  registry = registry;
  store = 0;
  queue = [];
  running = [];
  active = record { ctx = []; cancelled = [] };
  next_ctx = 0;
  wg = 0;
  sent = [];
}

abbrev waiting : State jobs
waiting = after jobs (admit jobs auth (err alias_not_found) request registry 0) idle

abbrev task : Task
task = record { job = new_job 5 0 request; cmd = new_cancel_job_command }

waiting-queue : waiting.queue ≡ task ∷ []
unfolding admit find lookup create_task check ◌==◌
waiting-queue = refl

abbrev busy : State jobs
busy = start jobs task [] waiting

busy-Reachable : Reachable jobs auth busy
busy-Reachable =
    then_step (then_step (initially registry 0) (receive idle (err alias_not_found) request))
      (begin waiting task [] waiting-queue)

running-IsAllowed_example :
    All (IsAllowed jobs jobs-JobServiceLaws auth) busy.queue
    × All (λ e. IsAllowed jobs jobs-JobServiceLaws auth e.0) busy.running
running-IsAllowed_example = running-IsAllowed jobs jobs-JobServiceLaws auth busy busy-Reachable

wg_counts_example :
    (busy.wg ≡ length busy.queue + length busy.running)
    × (busy.wg ≡ 0 → (busy.queue ≡ []) × (busy.running ≡ []))
wg_counts_example = wg_counts jobs auth busy busy-Reachable

abbrev active : ActiveCommands
active = record { ctx = (4, 0) ∷ []; cancelled = [] }

-- Shutdown is called when nothing runs; a request comes behind its wait.
abbrev late_request : Closing jobs
late_request = received jobs (admit jobs auth (err alias_not_found) request registry 0) idle []

late_request-Reached : Reached jobs auth 20 late_request
late_request-Reached =
    then_shuts
      (then_shuts (then_shuts (called (initially registry 0)) (shuts_down idle []))
        (stops_waiting idle [] refl))
      (receives idle [] (err alias_not_found) request)

late_request-late : late_request.late ≡ task ∷ []
unfolding admit find lookup create_task check ◌==◌
late_request-late = refl

late_request-waited : late_request.phase ≡ waited
unfolding admit find lookup create_task check ◌==◌
late_request-waited = refl

shutdown-drains_example :
    AreLate jobs auth late_request.state late_request.late
    × (late_request.late ≡ [] → (late_request.state.queue ≡ []) × (late_request.state.running ≡ []))
unfolding admit find lookup create_task check ◌==◌
shutdown-drains_example = shutdown-drains jobs auth 20 late_request late_request-Reached tt
