-- ===== src/Remote.antt =====
-- remote/server/command_pipeline.go: the commands of the remote agents, and the jobs that they
-- run. Channels are numbered as they are made.
pub mod Agents
pub mod RunningJobs
pub mod Pipes
pub mod Serving
use meeseeks_box.Base.{
  ℕ, ◌+◌, ◌*◌, ◌%◌, ◌^◌, Bool, true, List, [], ◌∷◌, ◌++◌, Option, none, some, Bytes, eqb,
  if◌then◌else◌, Result, ok, err, errorf, Error, fault, or_wrap, ◌==◌, str, wrapf,
}
use meeseeks_box.Base.Assoc.{Assoc}
use meeseeks_box.Base.Decimal.{decimal}
use meeseeks_box.Model.{Job, Command, CommandOpts, CommandHelp, Runner, remote, with_opts, second}
use meeseeks_box.Commands.{
  CommandRegistration, RegistrationArgs, Registry, register, kind_remote_command, action_register,
  action_unregister,
}

-- the protocol's description of a command and of an agent; a timeout is its int64 bit pattern
pub record RemoteCommandConfig : Type 0 where
  pub timeout : ℕ
  pub auth_strategy : Bytes
  pub allowed_groups : List Bytes
  pub channel_strategy : Bytes
  pub allowed_channels : List Bytes
  pub has_handshake : Bool
  pub help : CommandHelp

pub record AgentConfiguration : Type 0 where
  pub agent_id : Bytes
  pub commands : Assoc RemoteCommandConfig

unfoldable pub remote_opts : Bytes → RemoteCommandConfig → CommandOpts
remote_opts name cmd = record {
  cmd = name;
  args = [];
  allowed_channels = cmd.allowed_channels;
  allowed_groups = cmd.allowed_groups;
  auth_strategy = cmd.auth_strategy;
  channel_strategy = cmd.channel_strategy;
  handshake = cmd.has_handshake;
  timeout = cmd.timeout * second % 2 ^ 64;
  help = cmd.help;
}

-- the loop over the agent's commands; their agent is that of the ID, or the zero one for ""
unfoldable pub remote_registrations : Bytes → Assoc RemoteCommandConfig → List CommandRegistration
remote_registrations agent [] = []
remote_registrations agent ((name, cmd) ∷ rest) =
    record { name = name; cmd = some (with_opts (remote agent) (remote_opts name cmd)) }
    ∷ remote_registrations agent rest

unfoldable pub register_agent : AgentConfiguration → Registry → Result (Unit {0}) × Registry
register_agent agent registry =
    let (r, registry') =
      register
        (record {
          kind = kind_remote_command;
          action = action_register;
          commands = remote_registrations agent.agent_id agent.commands;
        })
        registry in
    (or_wrap "failed to register remote commands: %s" [] r, registry')

-- The error is logged.
unfoldable pub deregister_agent_commands : AgentConfiguration → Registry → Registry
deregister_agent_commands agent registry =
    (register
      (record {
        kind = kind_remote_command;
        action = action_unregister;
        commands = remote_registrations [] agent.commands;
      })
      registry).1

-- the protocol's description of a job for an agent
pub record CommandRequest : Type 0 where
  pub job_id : ℕ
  pub command : Bytes
  pub args : List Bytes
  pub is_im : Bool
  pub channel : Bytes
  pub channel_id : Bytes
  pub channel_link : Bytes
  pub user_id : Bytes
  pub user_link : Bytes
  pub username : Bytes

-- what remoteCommand.Execute sends for a job
unfoldable pub command_request : Job → CommandRequest
command_request job = record {
  command = job.request.command;
  args = job.request.args;
  is_im = job.request.is_im;
  channel = job.request.channel;
  channel_id = job.request.channel_id;
  channel_link = job.request.channel_link;
  user_id = job.request.user_id;
  user_link = job.request.user_link;
  username = job.request.username;
  job_id = job.id;
}

pub record FinishedJob : Type 0 where
  pub agent_id : Bytes
  pub job_id : ℕ
  pub content : Bytes
  pub err : Bytes

-- `running_jobs` maps a job to the channel that its command waits on; `sent` is what was sent on
-- the channels, and `errors` what was told to the log writer.
pub record Pipeline : Type 0 where
  pub running_jobs : List (ℕ × ℕ)
  pub next_channel : ℕ
  pub sent : List (ℕ × FinishedJob)
  pub errors : List (ℕ × Bytes)

unfoldable pub channel_of : ℕ → List (ℕ × ℕ) → Option ℕ
channel_of id [] = none
channel_of id ((k, c) ∷ m) = if eqb k id then some c else channel_of id m

unfoldable pub without : ℕ → List (ℕ × ℕ) → List (ℕ × ℕ)
without id [] = []
without id ((k, c) ∷ m) = let rest = without id m in if eqb k id then rest else (k, c) ∷ rest

-- The channel of the job, and the state.
unfoldable pub start_job : ℕ → Pipeline → ℕ × Pipeline
start_job id p = (
  p.next_channel,
  record p {
    running_jobs = (id, p.next_channel) ∷ without id p.running_jobs;
    next_channel = p.next_channel + 1;
  },
)

unfoldable pub pop_job : ℕ → Pipeline → Result ℕ × Pipeline
pop_job id p = elim (channel_of id p.running_jobs) [
  | none ↦
      (err (errorf "could not find job with ID %d in the running jobs list" (decimal id ∷ [])), p)
  | some c ↦ (ok c, record p { running_jobs = without id p.running_jobs })
]

abbrev pub deliver : FinishedJob → Result ℕ × Pipeline → Result (Unit {0}) × Pipeline
deliver f (err e, p) = (or_wrap "could not fetch command finish channel: %s" [] (err e), p)
deliver f (ok c, p) = (
  ok tt,
  record p {
    sent = p.sent ++ (c, f) ∷ [];
    errors = if f.err == [] then p.errors else p.errors ++ (f.job_id, f.err) ∷ [];
  },
)

unfoldable pub finish_job : FinishedJob → Pipeline → Result (Unit {0}) × Pipeline
finish_job f p = deliver f (pop_job f.job_id p)

unfoldable pub finished_error : FinishedJob → Option Error
finished_error f = if f.err == [] then none else some (fault f.err)

-- How the wait of remoteCommand.Execute ends: with the error of its context, or with what was sent
-- on the channel.
pub data Waited : Type 0 where
  context_done : Bytes → Waited
  received : FinishedJob → Waited

unfoldable pub executed : Waited → Bytes × Option Error
executed (context_done e) =
    ([], some (errorf "command failed because of context done: %s" (e ∷ [])))
executed (received f) = (f.content, finished_error f)

-- the protocol's CommandFinish, and the handler of Finish
pub record CommandFinish : Type 0 where
  pub agent_id : Bytes
  pub job_id : ℕ
  pub content : Bytes
  pub error : Bytes

abbrev pub finished_of : CommandFinish → FinishedJob
finished_of fin = record {
  agent_id = fin.agent_id;
  job_id = fin.job_id;
  content = fin.content;
  err = fin.error;
}

unfoldable pub finish : CommandFinish → Pipeline → Result (Unit {0}) × Pipeline
finish fin p = finish_job (finished_of fin) p
