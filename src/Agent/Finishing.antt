-- ===== src/Agent/Finishing.antt =====
-- A job that the server gives to an agent: what the agent runs, and what comes back
-- (remote/agent/agent.go and remote/server/command_pipeline.go).
use meeseeks_box.Base.{
  eqb_refl, ℕ, ◌≡◌, refl, ap, ◌∙◌, true, [], ◌∷◌, ◌++◌, Option, none, some, Bytes, ◌==◌, err, Error,
  if◌then◌else◌, Option-cases, inl, inr, fault, str, subst, arith,
}
use meeseeks_box.Base.Assoc.{lookup}
use meeseeks_box.Base.Trim.{trim_space}
use meeseeks_box.Model.{Request, Job, Command, job_running_status}
use meeseeks_box.Commands.{Registry, CommandHub, find, hub_cmd, hub_ok}
use meeseeks_box.Commands.Ownership.{IsWellFormed}
use meeseeks_box.Remote.{
  command_request, CommandFinish, Pipeline, start_job, finish, finished_of, finish_job, received,
  executed, finished_error, channel_of,
}
use meeseeks_box.Remote.RunningJobs.{finish-start_job, finish-found, channel_of-without}
use meeseeks_box.Agent.{
  Machine, ended, not_found, run_found, request_of, job_of, command_finish, arrives, lost,
  finish_call, call_finish, run_command,
}

request_of-command_request : (job : Job) → request_of (command_request job) ≡ job.request
unfolding request_of command_request
request_of-command_request job = refl

-- The job that the agent runs for a job of the server: started anew, with no alias of its name.
abbrev pub agent_job : Machine → Job → Job
agent_job m job = record {
  id = job.id;
  request = job.request;
  status = job_running_status;
  start_time = m.now;
  end_time = 0;
}

found_direct :
    (registry : Registry) (e : Error) (rq : Request)
    → lookup [] registry ≡ none
    → find registry (err e) rq
      ≡ (hub_cmd (lookup rq.command registry), hub_ok (lookup rq.command registry), rq)
unfolding find
found_direct registry e rq h = rw (h, find) refl

module _ (m : Machine) (agent : Bytes) (registry : Registry) (job : Job) (e : Error)
    (direct : m.alias job.request ≡ err e) (unnamed : lookup [] registry ≡ none) where
  found :
      command_finish m agent registry (command_request job)
      ≡ run_found m agent (command_request job) (
        hub_cmd (lookup job.request.command registry),
        hub_ok (lookup job.request.command registry),
        job.request,
      )
  unfolding command_finish request_of command_request
  found =
      ap (λ a. run_found m agent (command_request job) (find registry a job.request)) direct
      ∙ ap (run_found m agent (command_request job)) (found_direct registry e job.request unnamed)

unnamed_missing : (registry : Registry) → IsWellFormed registry → lookup [] registry ≡ none
unfolding trim_space ◌==◌
unnamed_missing registry w = elim (Option-cases (lookup [] registry)) [
  | inl e ↦ e
  | inr (hub, there) ↦ cc ((w.hubs [] hub there).0)
]

-- What reaches the server of what a command returned: its text, and the text of its error, which
-- is an error unless it is empty.
abbrev pub told : Machine → Bytes × Option Error → Bytes × Option Error
told m (content, none) = (content, none)
told m (content, some e) =
    (content, if m.error_text e == [] then none else some (fault (m.error_text e)))

abbrev pub not_found_error : Job → Error
not_found_error job =
    fault (str "could not find command " ++ (job.request.command ++ str " in remote agent"))

executed-ended :
    (m : Machine) (agent : Bytes) (id : ℕ) (r : Bytes × Option Error)
    → executed (received (finished_of (ended m agent id r))) ≡ told m r
unfolding executed finished_error ◌==◌
executed-ended m agent id (content, none) = refl
executed-ended m agent id (content, some e) = refl

job_of-agent_job : (m : Machine) (job : Job) → job_of m.now job.id job.request ≡ agent_job m job
unfolding job_of
job_of-agent_job m job = refl

delivered :
    (fin : CommandFinish) (job : Job) (p : Pipeline)
    → fin.job_id ≡ job.id
    → (finish fin (start_job job.id p).1).1.sent
      ≡ p.sent ++ ((start_job job.id p).0, finished_of fin) ∷ []
unfolding finish
delivered fin job p same =
    subst
      (λ id.
        (finish_job (finished_of fin) (start_job id p).1).1.sent
        ≡ p.sent ++ ((start_job id p).0, finished_of fin) ∷ [])
      same (finish-start_job (finished_of fin) p).1

started_waits :
    (job : Job) (p : Pipeline)
    → channel_of job.id (start_job job.id p).1.running_jobs ≡ some (start_job job.id p).0
unfolding start_job channel_of
started_waits job p = rw (eqb_refl job.id) refl

no_wait :
    (fin : CommandFinish) (job : Job) (p : Pipeline)
    → fin.job_id ≡ job.id
    → channel_of job.id (finish fin (start_job job.id p).1).1.running_jobs ≡ none
unfolding finish
no_wait fin job p same =
    let q = (start_job job.id p).1 in
    let waits : channel_of fin.job_id q.running_jobs ≡ some (start_job job.id p).0 =
      rw same (started_waits job p) in
    ap (λ o. channel_of job.id o.1.running_jobs)
      (finish-found (finished_of fin) (start_job job.id p).0 q waits)
    ∙ channel_of-without fin.job_id job.id q.running_jobs
    ∙ rw (same, eqb_refl job.id) refl

-- What is told of a job by the CommandFinish of an agent: what the agent's command of that name
-- returned for the server's request, or an error if the agent has no such command.
abbrev pub IsTold : Machine → Registry → Job → CommandFinish → Type 0
IsTold m registry job fin =
    (lookup job.request.command registry ≡ none
      → executed (received (finished_of fin)) ≡ ([], some (not_found_error job)))
    × ((hub : CommandHub) (cmd : Command)
        → lookup job.request.command registry ≡ some hub
        → hub.cmd ≡ some cmd
        → executed (received (finished_of fin)) ≡ told m (m.execute cmd (agent_job m job)))

finished :
    (m : Machine) (agent : Bytes) (registry : Registry) (job : Job) (e : Error)
    → IsWellFormed registry
    → m.alias job.request ≡ err e
    → (fin : CommandFinish) × (command_finish m agent registry (command_request job) ≡ some fin)
      × (fin.job_id ≡ job.id)
      × IsTold m registry job fin
finished m agent registry job e w direct =
    let runs = found m agent registry job e direct (unnamed_missing registry w) in
    elim (Option-cases (lookup job.request.command registry)) [
      | inl missing ↦
          let fin : CommandFinish = not_found m agent (command_request job) in
          (
            fin,
            runs
                ∙ ap
                    (λ o.
                      run_found m agent (command_request job) (hub_cmd o, hub_ok o, job.request))
                    missing,
            (unfold command_request in refl),
            (
              λ h. unfold executed finished_error command_request ◌==◌ in refl,
              λ hub cmd there is. cc,
            ),
          )
      | inr (hub, there) ↦ elim (Option-cases hub.cmd) [
        | inl nil ↦ absurd ((w.hubs job.request.command hub there).2 nil)
        | inr (cmd, is) ↦
            let fin : CommandFinish = ended m agent job.id (m.execute cmd (agent_job m job)) in
            (
              fin,
              runs
                  ∙ ap
                      (λ o.
                        run_found m agent (command_request job) (hub_cmd o, hub_ok o, job.request))
                      there
                  ∙ ap (λ c. run_found m agent (command_request job) (c, true, job.request)) is
                  ∙ (unfold command_request job_of in refl),
              refl,
              (
                λ h. cc,
                λ hub' cmd' there' is'.
                    let same : cmd ≡ cmd' = ground arith in
                    executed-ended m agent job.id (m.execute cmd (agent_job m job))
                    ∙ ap (λ c. told m (m.execute c (agent_job m job))) same,
              ),
            )
      ]
    ]

-- An agent that runs a job of the server sends one CommandFinish for it, with what its command of
-- that name returned for the server's request, or with an error if it has no such command. If the
-- call of Finish gets to the server, while the job's command waits, then it is sent on the channel
-- that the command waits on, and the job is waited for no more. If it does not, then nothing is
-- told: the state of the server is as it was, and the job is still waited for. The name is no alias
-- on the agent, whose registry is well-formed.
pub run_command-finishes :
    (m : Machine) (agent : Bytes) (registry : Registry) (job : Job) (e : Error) (p : Pipeline)
    → IsWellFormed registry
    → m.alias job.request ≡ err e
    → let started = (start_job job.id p).1 in
      ((fin : CommandFinish) × (q : Pipeline) × (run_command m arrives agent registry
            (command_request job)
            started
          ≡ some q)
        × (q.sent ≡ p.sent ++ ((start_job job.id p).0, finished_of fin) ∷ [])
        × (channel_of job.id q.running_jobs ≡ none)
        × IsTold m registry job fin)
      × (run_command m lost agent registry (command_request job) started ≡ some started)
      × (channel_of job.id started.running_jobs ≡ some (start_job job.id p).0)
unfolding run_command finish_call
run_command-finishes m agent registry job e p w direct =
    let (fin, sends, same, is_told) = finished m agent registry job e w direct in
    let started = (start_job job.id p).1 in
    (
      (
        fin,
        (finish fin started).1,
        ap (λ o. call_finish arrives o started) sends,
        delivered fin job p same,
        no_wait fin job p same,
        is_told,
      ),
      ap (λ o. call_finish lost o started) sends,
      started_waits job p,
    )
