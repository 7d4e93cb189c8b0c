-- ===== src/Agent.antt =====
-- remote/agent: the commands that an agent offers (agent_config.go), and the loop that receives
-- jobs from the server and runs them (agent.go). What gRPC gives is an argument, and so is
-- jpillora/backoff.
pub mod Offering
pub mod Loop
pub mod Finishing
pub mod Logs
pub mod Delivery
pub mod Connecting
use meeseeks_box.Base.{
  ℕ, ◌+◌, ◌*◌, ◌≡◌, Bool, true, false, List, [], ◌∷◌, ◌++◌, Option, none, some, Bytes, str, eqb,
  ltb, if◌then◌else◌, Result, ok, err, Error,
}
use meeseeks_box.Base.Assoc.{Assoc}
use meeseeks_box.Model.{Request, Job, Command, job_running_status, second}
use meeseeks_box.Commands.{Registry, all_commands, find}
use meeseeks_box.Remote.{
  RemoteCommandConfig, AgentConfiguration, CommandRequest, CommandFinish, Pipeline, finish,
}

-- a GRPCTimeout of zero is the default of 10 seconds
unfoldable pub get_grpc_timeout : ℕ → ℕ
get_grpc_timeout timeout = if eqb timeout 0 then 10 * second else timeout

-- The timeout is in nanoseconds. `has_handshake` is left at its zero value.
unfoldable pub remote_command : Command → RemoteCommandConfig
remote_command cmd = record {
  timeout = cmd.timeout;
  auth_strategy = cmd.auth_strategy;
  allowed_groups = cmd.allowed_groups;
  channel_strategy = cmd.channel_strategy;
  allowed_channels = cmd.allowed_channels;
  has_handshake = false;
  help = cmd.help;
}

abbrev pub cons_command :
    Bytes → Option Command → Option (Assoc RemoteCommandConfig) → Option (Assoc RemoteCommandConfig)
cons_command name none rest = none
cons_command name (some cmd) none = none
cons_command name (some cmd) (some rest) = some ((name, remote_command cmd) ∷ rest)

-- The loop over commands.All(). A nil command panics, `none`.
unfoldable pub remote_commands : Assoc (Option Command) → Option (Assoc RemoteCommandConfig)
remote_commands [] = some []
remote_commands ((name, cmd) ∷ rest) = cons_command name cmd (remote_commands rest)

unfoldable pub create_remote_commands : Registry → Option (Assoc RemoteCommandConfig)
unfolding remote_commands
create_remote_commands registry = remote_commands (all_commands registry)

abbrev pub configuration_of : Bytes → Option (Assoc RemoteCommandConfig) → Option AgentConfiguration
configuration_of agent none = none
configuration_of agent (some commands) = some (record { agent_id = agent; commands = commands })

-- The labels and the token are not looked at by the server.
unfoldable pub create_agent_configuration : Bytes → Registry → Option AgentConfiguration
create_agent_configuration agent registry = configuration_of agent (create_remote_commands registry)

-- jpillora/backoff: Attempt counts the calls of Duration since the last Reset.
pub record Backoff (B : Type 0) : Type 0 where
  pub fresh : B
  pub attempt : B → ℕ
  pub duration : B → B
  pub reset : B → B

pub record BackoffLaws {B : Type 0} (b : Backoff B) : Type 0 where
  pub attempt-fresh : b.attempt b.fresh ≡ 0
  pub attempt-duration : (s : B) → b.attempt (b.duration s) ≡ b.attempt s + 1
  pub attempt-reset : (s : B) → b.attempt (b.reset s) ≡ 0

-- What a Recv of the command stream gives: a command, io.EOF, or the error of a status.
pub data Received : Type 0 where
  command : CommandRequest → Received
  eof unavailable cancelled other_error : Received

-- What a call of RegisterAgent gives: an error, or a stream, with what its calls of Recv give.
pub data Connection : Type 0 where
  refused : Connection
  stream : List Received → Connection

-- Run goes on with the loop, returns, or is still waiting.
pub data After : Type 0 where
  reconnects quits waits : After

-- the inner loop: the commands that goroutines are started for, and what comes then
unfoldable pub listen : List Received → List CommandRequest × After
listen [] = ([], waits)
listen (command cmd ∷ rest) = let (cmds, after) = listen rest in (cmd ∷ cmds, after)
listen (eof ∷ rest) = ([], quits)
listen (unavailable ∷ rest) = ([], reconnects)
listen (cancelled ∷ rest) = ([], quits)
listen (other_error ∷ rest) = ([], quits)

abbrev pub run_on :
    List CommandRequest × After → List CommandRequest × After → List CommandRequest × After
run_on (cmds, reconnects) (more, end) = (cmds ++ more, end)
run_on (cmds, quits) rest = (cmds, quits)
run_on (cmds, waits) rest = (cmds, waits)

-- the outer loop of Run, over what its calls of RegisterAgent give
unfoldable pub run_from :
    {B : Type 0} → Backoff B → B → List Connection → List CommandRequest × After
unfolding listen
run_from b s [] = ([], waits)
run_from b s (refused ∷ rest) =
    let again = run_from b (b.duration s) rest in
    if ltb 10 (b.attempt s) then ([], quits) else again
run_from b s (stream received ∷ rest) =
    let again = run_from b (b.reset s) rest in run_on (listen received) again

unfoldable pub run : {B : Type 0} → Backoff B → List Connection → List CommandRequest × After
unfolding run_from
run b connections = run_from b b.fresh connections

unfoldable pub request_of : CommandRequest → Request
request_of cmd = record {
  command = cmd.command;
  args = cmd.args;
  channel = cmd.channel;
  channel_id = cmd.channel_id;
  channel_link = cmd.channel_link;
  is_im = cmd.is_im;
  user_id = cmd.user_id;
  username = cmd.username;
  user_link = cmd.user_link;
}

-- `now` is the clock's reading
unfoldable pub job_of : ℕ → ℕ → Request → Job
job_of now id rq = record {
  id = id;
  request = rq;
  status = job_running_status;
  start_time = now;
  end_time = 0;
}

-- A call of Finish gets to the server's handler, or it does not: its context is the agent's, which
-- Shutdown and Reconnect cancel, with a timeout. Its error is dropped, and it is not repeated.
pub data Call : Type 0 where
  arrives lost : Call

unfoldable pub finish_call : Call → CommandFinish → Pipeline → Pipeline
finish_call arrives fin p = (finish fin p).1
finish_call lost fin p = p

abbrev pub call_finish : Call → Option CommandFinish → Pipeline → Option Pipeline
call_finish call none p = none
call_finish call (some fin) p = some (finish_call call fin p)

-- What a run does on the agent: Execute of a command on a job, the clock, the user's alias of a
-- name, and the text of an error.
pub record Machine : Type 0 where
  pub execute : Command → Job → Bytes × Option Error
  pub now : ℕ
  pub alias : Request → Result (Bytes × List Bytes)
  pub error_text : Error → Bytes

module _ (m : Machine) where
  abbrev pub error_string : Option Error → Bytes
  error_string none = []
  error_string (some e) = m.error_text e

  abbrev pub ended : Bytes → ℕ → Bytes × Option Error → CommandFinish
  ended agent id (content, e) = record {
    agent_id = agent;
    job_id = id;
    content = content;
    error = error_string e;
  }

  abbrev pub not_found : Bytes → CommandRequest → CommandFinish
  not_found agent cmd = record {
    agent_id = agent;
    job_id = cmd.job_id;
    content = [];
    error = str "could not find command " ++ (cmd.command ++ str " in remote agent");
  }

  -- A nil command panics, `none`.
  abbrev pub run_found :
      Bytes → CommandRequest → Option Command × Bool × Request → Option CommandFinish
  run_found agent cmd (local_cmd, false, rq) = some (not_found agent cmd)
  run_found agent cmd (none, true, rq) = none
  run_found agent cmd (some local_cmd, true, rq) =
      some (ended agent cmd.job_id (m.execute local_cmd (job_of m.now cmd.job_id rq)))

  -- The CommandFinish that runCommand sends, the context's end being part of Execute.
  unfoldable pub command_finish : Bytes → Registry → CommandRequest → Option CommandFinish
  command_finish agent registry cmd =
      run_found agent cmd (find registry (m.alias (request_of cmd)) (request_of cmd))

  -- runCommand, beside the state of the server, with what becomes of its call of Finish.
  unfoldable pub run_command : Call → Bytes → Registry → CommandRequest → Pipeline → Option Pipeline
  run_command call agent registry cmd p = call_finish call (command_finish agent registry cmd) p
